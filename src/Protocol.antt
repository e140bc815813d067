-- ===== src/Protocol.antt =====
-- go-core/protocol/protocol.go: the framed JSON messages of the control connection.
-- `encoding/json` and `crypto/sha256` are the section parameters of the code that uses them.
pub mod Wires
pub mod Framing
pub mod Accepts
use rathole_pro.Prelude.{
  ℕ, ◌≤◌, ◌≡◌, String, Bool, not, ◌&&◌, List, [], ◌∷◌, ◌++◌, Option, none, some, ltb, ◌==◌,
  if◌then◌else◌, length, get_or, take, drop, ◌*◌,
}
use rathole_pro.Prelude.Words.{IsBytes, u32, put_u32, big_endian}
use rathole_pro.Prelude.Exec.{Result, ok, err, errorf, Exec, fail_if, done, lift, wrap, ◌>>=◌, ◌>>◌}
use rathole_pro.Net.Wire.{Wire, read_full, write}

abbrev pub protocol_version : ℕ
protocol_version = 1

abbrev pub max_frame_size : ℕ
max_frame_size = 16 * 1024 * 1024

-- `Magic`: the letters RHPR.
abbrev pub magic : List ℕ
magic = b'R' ∷ b'H' ∷ b'P' ∷ b'R' ∷ []

pub record AuthRequest : Type 0 where
  pub service_name : String
  pub token_hash : String
  pub service_type : String
  pub mux_enabled : Bool
  pub mux_streams : ℕ

pub record AuthResponse : Type 0 where
  pub success : Bool
  pub message : String
  pub session_id : String

-- A nil pointer is `none`; `*struct{}` holds nothing but its presence.
pub record Envelope : Type 0 where
  pub auth : Option AuthRequest
  pub auth_resp : Option AuthResponse
  pub ping : Option (Unit {0})
  pub pong : Option (Unit {0})
  pub disconnect : Option String

abbrev pub empty_envelope : Envelope
empty_envelope = record {
  auth = none;
  auth_resp = none;
  ping = none;
  pong = none;
  disconnect = none;
}

-- `json.Marshal(env)` and `json.Unmarshal(payload, &env)`.
pub record Json : Type 0 where
  pub marshal : Envelope → Result (List ℕ)
  pub unmarshal : List ℕ → Result Envelope

-- `json` writes `env` as `payload` and reads the payload back as `env`.
pub record Encodes (json : Json) (env : Envelope) (payload : List ℕ) : Type 0 where
  pub marshals : json.marshal env ≡ ok payload
  pub unmarshals : json.unmarshal payload ≡ ok env
  pub fits : length payload ≤ max_frame_size

-- The 9 bytes in front of a payload.
unfoldable pub header : List ℕ → List ℕ
header payload = magic ++ (protocol_version ∷ put_u32 (u32 (length payload)))

-- The first four bytes are `Magic`.
abbrev pub has_magic : List ℕ → Bool
has_magic head =
    get_or head 0 0 == b'R'
    && get_or head 1 0 == b'H'
    && get_or head 2 0 == b'P'
    && get_or head 3 0 == b'R'

module _ {S : Type 0} ⦃w : Wire S⦄ (json : Json) where
  unfoldable pub write_message : Envelope → Exec S (Unit {0})
  write_message env = do
    payload ← wrap "marshal message" (lift (json.marshal env))
    fail_if (ltb max_frame_size (length payload)) (errorf "message too large")
    write (header payload)
    write payload
    done

  unfoldable pub read_message : Exec S Envelope
  read_message = do
    head ← wrap "read header" (read_full 9)
    fail_if (not (has_magic head)) (errorf "invalid magic bytes")
    fail_if (not (get_or head 4 0 == protocol_version)) (errorf "unsupported protocol version")
    let size = big_endian (take 4 (drop 5 head))
    fail_if (ltb max_frame_size size) (errorf "frame too large")
    payload ← wrap "read payload" (read_full size)
    wrap "unmarshal message" (lift (json.unmarshal payload))

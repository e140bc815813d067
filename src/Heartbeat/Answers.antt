-- ===== src/Heartbeat/Answers.antt =====
-- What `ClientHeartbeat` sends for what it receives.
use rathole_pro.Prelude.{
  ℕ, zero, suc, ◌+◌, ◌-◌, ◌≤◌, ◌<◌, ◌≡◌, Bool, false, List, [], ◌∷◌, ◌++◌, append_assoc, append-nil,
  length, length-append, if◌then◌else◌, arith, Bool-cases, inl, inr,
}
use rathole_pro.Prelude.Words.{put_u32}
use rathole_pro.Prelude.Exec.{eof, wrapf, err}
use rathole_pro.Net.Wire.{conn_wire}
use rathole_pro.Net.{Conn}
use rathole_pro.Net.Laws.{read_full_end}
use rathole_pro.Config.{is_some}
use rathole_pro.Protocol.{Json, Encodes, Envelope, header, read_message}
use rathole_pro.Protocol.Framing.{frame, read_message_ok, write_message_ok}
use rathole_pro.Heartbeat.{read_failed, pong_envelope, client_heartbeat}

-- A message and its payload.
pub record Message (json : Json) : Type 0 where
  pub env : Envelope
  pub payload : List ℕ
  pub encodes : Encodes json env payload

module _ (json : Json) (pong : List ℕ) (enc : Encodes json pong_envelope pong) where
  abbrev pub stream : List (Message json) → List ℕ
  stream [] = []
  stream (m ∷ ms) = frame m.payload ++ stream ms

  -- One pong for each message with a ping.
  abbrev pub answers : List (Message json) → List ℕ
  answers [] = []
  answers (m ∷ ms) = if is_some m.env.ping then frame pong ++ answers ms else answers ms

  length-frame_payload : (payload : List ℕ) → length (frame payload) ≡ 9 + length payload
  unfolding header put_u32
  length-frame_payload payload = omega arith

  read_message_at_end :
      (c : Conn)
      → c.closed ≡ false
      → c.incoming ≡ []
      → read_message json c ≡ (err (wrapf "read header" eof), c)
  unfolding read_message
  read_message_at_end c open_conn e = ground (arith, read_full_end 9 c)

  -- The connection after so many bytes are read and these are sent.
  abbrev pub after : Conn → List ℕ → List ℕ → Conn
  after c rest sent = record c {
    incoming = rest;
    outgoing = c.outgoing ++ sent;
    room = c.room - length sent;
  }

  -- On an open connection with room for the pongs, while `stopCh` is open and with more rounds
  -- than messages, `ClientHeartbeat` answers each ping that it receives with one pong, sends
  -- nothing else, and returns with an error at the end of the stream.
  pub client_heartbeat-answers :
      (fuel round : ℕ) (stop : ℕ → Bool) (ms : List (Message json)) (c : Conn)
      → ((i : ℕ) → stop i ≡ false)
      → c.closed ≡ false
      → c.incoming ≡ stream ms
      → length (answers ms) ≤ c.room
      → length ms < fuel
      → client_heartbeat json fuel stop round c
        ≡ (read_failed (wrapf "read header" eof), after c [] (answers ms))
  unfolding client_heartbeat
  client_heartbeat-answers zero round stop ms c go o e room enough = absurd (omega arith)
  client_heartbeat-answers (suc fuel) round stop [] c go o e room enough =
      ground (arith, go round, read_message_at_end c o e, append-nil c.outgoing)
  client_heartbeat-answers (suc fuel) round stop (m ∷ ms) c go o e room enough =
      elim (Bool-cases (is_some m.env.ping)) [
        | inl pinged ↦ ground (
          arith,
          go round,
          read_message_ok json m.env m.payload m.encodes (stream ms) c o e,
          write_message_ok json pong_envelope pong enc (record c { incoming = stream ms }),
          length-frame_payload pong,
          length-append (frame pong) (answers ms),
          append_assoc c.outgoing (frame pong) (answers ms),
          client_heartbeat-answers fuel (round + 1) stop ms
              (record c {
                incoming = stream ms;
                outgoing = c.outgoing ++ frame pong;
                room = c.room - 9 - length pong;
              })
              go,
        )
        | inr silent ↦ ground (
          arith,
          go round,
          read_message_ok json m.env m.payload m.encodes (stream ms) c o e,
          client_heartbeat-answers fuel (round + 1) stop ms (record c { incoming = stream ms }) go,
        )
      ]

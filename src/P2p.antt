-- ===== src/P2p.antt =====
-- go-core/p2p/p2p.go: the STUN request and the parsing of its response.
-- The resolver and the sockets are left out.
pub mod Scan
pub mod Attributes
pub mod Response
pub mod Punch
use rathole_pro.Prelude.{
  ℕ, zero, suc, ◌+◌, ◌-◌, ◌*◌, ◌/◌, ◌%◌, ◌^◌, ◌≤◌, ◌≡◌, Bool, true, false, not, ◌&&◌, List, [], ◌∷◌,
  ◌++◌, Option, none, some, ltb, leb, ◌==◌, if◌then◌else◌, length, take, drop, replicate, bit_xor,
  String, bit_and,
}
use rathole_pro.Prelude.Words.{u8, u16, u32, put_u16, put_u32, big_endian}
use rathole_pro.Prelude.Exec.{Err, errorf, wrapf, Result, ok, err}

abbrev pub magic_cookie : ℕ
magic_cookie = 0x2112_a442

abbrev pub buf_size : ℕ
buf_size = 256

-- `txID[i] = byte((now >> (i * 8)) & 0xFF)` for `i` below `count`; the shift of an int64 by 64 or
-- more gives its sign, and `now` is not negative.
unfoldable pub tx_id : ℕ → ℕ → List ℕ
tx_id zero now = []
tx_id (suc count) now = u8 now ∷ tx_id count (now / 2 ^ 8)

unfoldable pub binding_request : ℕ → List ℕ
binding_request now = put_u16 0x0001 ++ (put_u16 0x0000 ++ (put_u32 magic_cookie ++ tx_id 12 now))

pub record UdpAddr : Type 0 where
  pub ip : ℕ
  pub port : ℕ

-- What the parsing ends with; a slice past the buffer panics.
pub data Discovery : Type 0 where
  address : UdpAddr → Discovery
  failed : Err → Discovery
  panics : Discovery
  out_of_fuel : Discovery

-- `buf[from : from+count]` as a big-endian number.
abbrev pub field : List ℕ → ℕ → ℕ → Option ℕ
field buf from count =
    if leb (from + count) (length buf) then some (big_endian (take count (drop from buf))) else none

infixl 5 ◌>>=◌
abbrev ◌>>=◌ : Option ℕ → (ℕ → Discovery) → Discovery
none >>= f = panics
some a >>= f = f a

-- `int((attrLen + 3) & ^uint16(3))`: the length in four-byte steps, as a uint16.
unfoldable pub aligned : ℕ → ℕ
aligned attr_len = u16 (attr_len + 3) / 4 * 4

-- The XOR-MAPPED-ADDRESS at `pos`.
unfoldable pub mapped_address : List ℕ → ℕ → Discovery
mapped_address buf pos = do
  x_port ← field buf (pos + 2) 2
  x_ip ← field buf (pos + 4) 4
  address (record { ip = bit_xor x_ip magic_cookie; port = bit_xor x_port (magic_cookie / 2 ^ 16) })

-- The loop over the attributes, from `pos` on, with `n` bytes received.
unfoldable pub scan : ℕ → List ℕ → ℕ → ℕ → ℕ → Discovery
scan zero buf n msg_len pos = out_of_fuel
scan (suc fuel) buf n msg_len pos =
    let more = λ (attr_len : ℕ). scan fuel buf n msg_len (pos + 4 + aligned attr_len) in
    if leb (pos + 4) (20 + msg_len) && leb (pos + 4) n
    then (do
      attr_type ← field buf pos 2
      attr_len ← field buf (pos + 2) 2
      if attr_type == 0x0020 && leb 8 attr_len then mapped_address buf (pos + 4) else more attr_len)
    else failed (errorf "no XOR-MAPPED-ADDRESS in STUN response")

-- The parsing of a buffer with `n` bytes received.
unfoldable pub parse_buffer : List ℕ → ℕ → Discovery
parse_buffer buf n =
    if ltb n 20
    then failed (errorf "STUN response too short")
    else (do msg_len ← field buf 2 2; scan (suc buf_size) buf n msg_len 20)

-- The parsing of `STUNDiscover`: the buffer of 256 bytes holds what fits of the datagram, then zeros.
unfoldable pub parse_response : List ℕ → Discovery
parse_response datagram =
    let received = take buf_size datagram in
    parse_buffer (received ++ replicate (buf_size - length received) 0) (length received)

abbrev or_failed : {A : Type 0} → String → Result A → (A → Discovery) → Discovery
or_failed m (err e) f = failed (wrapf m e)
or_failed m (ok a) f = f a

-- `STUNDiscover`: what resolving the server's name, opening a socket, sending a request and waiting
-- for a datagram give.
unfoldable pub stun_discover :
    (resolve listen : Result (Unit {0})) (send : List ℕ → Result (Unit {0}))
    (receive : Result (List ℕ))
    → (now : ℕ) → Discovery
stun_discover resolve listen send receive now = or_failed "resolve STUN server" resolve λ _.
    or_failed "listen UDP" listen λ _.
      or_failed "send STUN request" (send (binding_request now))
        λ _. or_failed "STUN timeout or read error" receive parse_response

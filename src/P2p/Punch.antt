-- ===== src/P2p/Punch.antt =====
-- `HolePunch` and `ExchangeAndPunch` of go-core/p2p/p2p.go.
-- A socket read that fails or times out is `none`; else it is the number of bytes and the text of
-- the sender. `piece` says how many bytes a `Read` of the signalling connection gives at most.
pub mod Attempts
pub mod Exchange
use rathole_pro.Prelude.{
  ℕ, zero, suc, ◌+◌, ◌-◌, ◌≡◌, String, Bool, true, false, not, ◌&&◌, List, [], ◌∷◌, ◌++◌, Option,
  none, some, ltb, str_eq, if◌then◌else◌, length, take, drop, replicate, min,
}
use rathole_pro.Prelude.Text.{bytes}
use rathole_pro.Prelude.Words.{u16, put_u16, big_endian}
use rathole_pro.Prelude.Exec.{
  Err, errorf, eof, closed_conn, Result, ok, err, Exec, fail_if, lift, pure, wrap, ◌>>=◌, ◌>>◌,
}
use rathole_pro.Net.{Conn, write}
use rathole_pro.P2p.{UdpAddr}

abbrev pub punch_attempts : ℕ
punch_attempts = 10

abbrev pub punch : List ℕ
punch = bytes "RHPR-PUNCH"

abbrev pub Read : Type 0
Read = Option (ℕ × String)

-- `err == nil && n > 0 && addr.String() == remoteAddr.String()`
abbrev pub is_from : String → Read → Bool
is_from remote none = false
is_from remote (some (n, addr)) = ltb 0 n && str_eq addr remote

-- The loop of `HolePunch` with `left` rounds to go; `reads i` is what round `i` reads. The
-- result, and how many punches were sent.
unfoldable pub punch_loop : String → (ℕ → Read) → ℕ → ℕ → Bool × ℕ
punch_loop remote reads i zero = (false, i)
punch_loop remote reads i (suc left) =
    let more = punch_loop remote reads (suc i) left in
    if is_from remote (reads i) then (true, suc i) else more

unfoldable pub hole_punch : String → (ℕ → Read) → Bool × ℕ
hole_punch remote reads = punch_loop remote reads 0 punch_attempts

-- `conn.Read(buf)`, its count ignored: what is in the buffer afterwards, which keeps what it held
-- behind the bytes that were read.
unfoldable pub read_piece : ℕ → List ℕ → Exec Conn (List ℕ)
read_piece piece buf c =
    let n = length buf in
    let got = take (min piece n) c.incoming in
    if c.closed
    then (err closed_conn, c)
    else if ltb 0 n && ltb (length c.incoming) 1
    then (err eof, c)
    else (ok (got ++ drop (length got) buf), record c { incoming = drop (min piece n) c.incoming })

-- What a peer sends of its address.
unfoldable pub address_message : List ℕ → List ℕ
address_message text = put_u16 (u16 (length text)) ++ text

-- The exchange over the signalling connection: the peer's address as text. The header is read into
-- the buffer that holds the length of this side's address; the buffer of the address is new.
unfoldable pub exchange : (piece : ℕ → ℕ) → List ℕ → Exec Conn (List ℕ)
exchange piece text = do
  let header = put_u16 (u16 (length text))
  write header
  write text
  header ← read_piece (piece 0) header
  read_piece (piece 1) (replicate (big_endian header) 0)

abbrev try_listen : (Option ℕ → Result (Unit {0})) → ℕ → Result (Unit {0})
try_listen listen port = elim (listen (some port)) [ ok u ↦ ok u | err e ↦ listen none ]

-- `stun` is what `STUNDiscover` returned, `listen` what `net.ListenUDP` gives on a port, and on
-- any port.
module _ (text_of : UdpAddr → List ℕ) (resolve : List ℕ → Result UdpAddr)
    (string_of : UdpAddr → String) (listen : Option ℕ → Result (Unit {0})) (reads : ℕ → Read) where
  unfoldable pub exchange_and_punch : (piece : ℕ → ℕ) → Result UdpAddr → Exec Conn UdpAddr
  exchange_and_punch piece stun = do
    ext_addr ← wrap "STUN discover" (lift stun)
    peer_buf ← exchange piece (text_of ext_addr)
    peer_addr ← wrap "resolve peer addr" (lift (resolve peer_buf))
    wrap "listen UDP for punch" (lift (try_listen listen ext_addr.port))
    fail_if (not (hole_punch (string_of peer_addr) reads).0) (errorf "hole punch failed")
    pure peer_addr

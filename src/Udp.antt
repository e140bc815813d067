-- ===== src/Udp.antt =====
-- go-core/udp/udp.go: datagrams in frames over a stream.
-- An address is its text (`addr.String()`, as bytes); times are in nanoseconds. The three goroutines of
-- `ServerUDP` share the table of sessions under a mutex, so each round of one of them is a step.
pub mod Sessions
pub mod Frames
pub mod Replies
pub mod Local
pub mod Serving
pub mod Passage
use rathole_pro.Prelude.{
  ℕ, zero, suc, ◌+◌, ◌-◌, ◌*◌, ◌^◌, ◌≡◌, Bool, true, false, List, [], ◌∷◌, ◌++◌, Option, none, some,
  ltb, if◌then◌else◌, length,
}
use rathole_pro.Prelude.Words.{u16, put_u16, big_endian}
use rathole_pro.Prelude.Exec.{Result, ok, err, Exec, pure, done, ◌>>=◌, ◌>>◌}
use rathole_pro.Net.{Conn, read_full, write}
use Sessions.{Table, find, store, delete_if}

abbrev pub session_timeout : ℕ
session_timeout = 60 * 10 ^ 9

abbrev pub max_udp_packet : ℕ
max_udp_packet = 65535

pub record UdpSession : Type 0 where
  pub addr : List ℕ
  pub last_seen : ℕ

-- What `ServerUDP` keeps: the stream, the sessions and the datagrams that it has sent.
pub record Forwarder : Type 0 where
  pub stream : Conn
  pub sessions : Table UdpSession
  pub sent : List (List ℕ × List ℕ)

abbrev pub on_stream : {A : Type 0} → Exec Conn A → Exec Forwarder A
on_stream x f = let r = x f.stream in (r.0, record f { stream = r.1 })

unfoldable pub server_frame : List ℕ → List ℕ → List ℕ
server_frame key payload =
    put_u16 (u16 (length key)) ++ (key ++ (put_u16 (u16 (length payload)) ++ payload))

-- A round of the socket loop of `ServerUDP`: a datagram from `addr` at time `now`.
unfoldable pub on_datagram : List ℕ → List ℕ → ℕ → Exec Forwarder (Unit {0})
on_datagram addr payload now f =
    (do on_stream (write (server_frame addr payload)); done)
      (record f { sessions = store addr (record { addr = addr; last_seen = now }) f.sessions })

-- A frame as the loop of `ServerUDP` reads it: address key and payload.
unfoldable pub read_server_frame : Exec Conn (List ℕ × List ℕ)
read_server_frame = do
  header ← read_full 2
  key ← read_full (big_endian header)
  header ← read_full 2
  payload ← read_full (big_endian header)
  pure (key, payload)

abbrev deliver : Option UdpSession → List ℕ → Forwarder → Forwarder
deliver none payload f = f
deliver (some sess) payload f = record f { sent = f.sent ++ (sess.addr, payload) ∷ [] }

-- A round of the stream loop of `ServerUDP`.
unfoldable pub on_frame : Exec Forwarder (Unit {0})
on_frame = do
  frame ← on_stream read_server_frame
  λ f. (ok tt, deliver (find frame.0 f.sessions) frame.1 f)

-- A round of the cleanup.
unfoldable pub on_tick : ℕ → Forwarder → Forwarder
on_tick now f = record f {
  sessions = delete_if (λ s. ltb session_timeout (now - s.last_seen)) f.sessions;
}

-- The frame that `ClientUDP` writes for a datagram of the local service.
unfoldable pub client_frame : List ℕ → List ℕ
client_frame payload =
    put_u16 (u16 (length {A = ℕ} [])) ++ (put_u16 (u16 (length payload)) ++ payload)

-- A frame as `ClientUDP` reads it: the payload, which goes to the local service.
unfoldable pub read_client_frame : Exec Conn (List ℕ)
read_client_frame = do
  header ← read_full 2
  let addr_key_len = big_endian header
  if ltb 0 addr_key_len then (do read_full addr_key_len; done) else done
  header ← read_full 2
  read_full (big_endian header)

-- What can happen to the server side.
pub data Event : Type 0 where
  datagram : List ℕ → List ℕ → ℕ → Event
  frame : Event
  tick : ℕ → Event

unfoldable pub step : Event → Forwarder → Forwarder
step (datagram addr payload now) f = (on_datagram addr payload now f).1
step frame f = (on_frame f).1
step (tick now) f = on_tick now f

unfoldable pub run : List Event → Forwarder → Forwarder
run [] f = f
run (e ∷ es) f = run es (step e f)

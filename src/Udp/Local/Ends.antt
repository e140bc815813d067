-- ===== src/Udp/Local/Ends.antt =====
-- go-core/udp/udp.go: `ClientUDP` as a whole, with what starts its loops and what ends them.
-- The socket is what `net.ResolveUDPAddr` and `net.DialUDP` give, one after the other.
pub mod Kept
use rathole_pro.Prelude.{
  ℕ, ◌≡◌, Bool, true, false, List, [], ◌∷◌, ◌++◌, Option, none, some, if◌then◌else◌,
}
use rathole_pro.Prelude.Exec.{Err, Result, ok, err}
use rathole_pro.Net.{Conn}
use rathole_pro.Config.{is_some}
use rathole_pro.Udp.{read_client_frame}
use rathole_pro.Udp.Local.{LocalForwarder, local_round, on_reply}

-- The shared state, whether the goroutine of the stream is still in its loop, and what `ClientUDP`
-- has returned; the socket is closed by then, and a write to it, whose error is ignored, is lost.
pub record LocalServing : Type 0 where
  pub forwarder : LocalForwarder
  pub reads_stream : Bool
  pub returned : Option Err

-- A frame on the stream, a datagram of the local service, or the error of a read of the socket.
pub data LocalEvent : Type 0 where
  stream_frame : LocalEvent
  reply : List ℕ → LocalEvent
  socket_error : Err → LocalEvent

-- What a round of the stream's goroutine leaves when the socket is closed.
abbrev lost_write : LocalForwarder → LocalForwarder → LocalForwarder
lost_write before after = record after { to_service = before.to_service }

abbrev is_done : Result (Unit {0}) → Bool
is_done (ok u) = true
is_done (err e) = false

abbrev error_of : Result (Unit {0}) → Option Err
error_of (ok u) = none
error_of (err e) = some e

unfoldable pub local_step : LocalEvent → LocalServing → LocalServing
local_step stream_frame s =
    let r = local_round s.forwarder in
    let after = if is_some s.returned then lost_write s.forwarder r.1 else r.1 in
    if s.reads_stream then record s { forwarder = after; reads_stream = is_done r.0 } else s
local_step (reply payload) s =
    let r = on_reply payload s.forwarder in
    if is_some s.returned then s else record s { forwarder = r.1; returned = error_of r.0 }
local_step (socket_error e) s = if is_some s.returned then s else record s { returned = some e }

unfoldable pub local_serve : List LocalEvent → LocalServing → LocalServing
local_serve [] s = s
local_serve (e ∷ es) s = local_serve es (local_step e s)

abbrev pub new_local : Conn → LocalForwarder
new_local stream = record { stream = stream; to_service = [] }

abbrev local_refused : Err → Conn → LocalServing
local_refused e stream = record {
  forwarder = new_local stream;
  reads_stream = false;
  returned = some e;
}

-- `ClientUDP` on a stream, while these events come.
unfoldable pub client_udp :
    (resolve dial : Result (Unit {0})) → List LocalEvent → Conn → LocalServing
client_udp (err e) dial es stream = local_refused e stream
client_udp (ok _) (err e) es stream = local_refused e stream
client_udp (ok _) (ok _) es stream =
    local_serve es (record { forwarder = new_local stream; reads_stream = true; returned = none })

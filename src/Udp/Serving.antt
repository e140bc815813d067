-- ===== src/Udp/Serving.antt =====
-- go-core/udp/udp.go: `ServerUDP` as a whole, with what starts its loops and what ends them.
-- The socket is what `net.ResolveUDPAddr` and `net.ListenUDP` give, one after the other.
pub mod Returned
pub mod Silent
use rathole_pro.Prelude.{
  ℕ, ◌≡◌, Bool, true, false, not, ◌&&◌, List, [], ◌∷◌, Option, none, some, if◌then◌else◌,
}
use rathole_pro.Prelude.Exec.{Err, Result, ok, err}
use rathole_pro.Net.{Conn}
use rathole_pro.Config.{is_some}
use rathole_pro.Udp.{Forwarder, Event, datagram, frame, tick, on_datagram, on_frame, on_tick}

-- The shared state, whether the goroutine of the socket is still in its loop, and what `ServerUDP`
-- has returned; the socket is closed by then.
pub record Serving : Type 0 where
  pub forwarder : Forwarder
  pub reads_socket : Bool
  pub returned : Option Err

abbrev pub is_ok : {A : Type 0} → Result A → Bool
is_ok (ok a) = true
is_ok (err e) = false

abbrev pub error_of : {A : Type 0} → Result A → Option Err
error_of (ok a) = none
error_of (err e) = some e

-- A round of one of the loops, or an error of a read of the socket.
pub data ServeEvent : Type 0 where
  round : Event → ServeEvent
  socket_error : ServeEvent

-- A round of a loop that has not ended; the cleanup never does.
unfoldable pub serve_round : Event → Serving → Serving
serve_round (datagram addr payload now) s =
    let r = on_datagram addr payload now s.forwarder in
    if s.reads_socket && not (is_some s.returned)
    then record s { forwarder = r.1; reads_socket = is_ok r.0 }
    else s
serve_round frame s =
    let r = on_frame s.forwarder in
    if is_some s.returned then s else record s { forwarder = r.1; returned = error_of r.0 }
serve_round (tick now) s = record s { forwarder = on_tick now s.forwarder }

unfoldable pub serve_step : ServeEvent → Serving → Serving
serve_step (round e) s = serve_round e s
serve_step socket_error s = record s { reads_socket = false }

unfoldable pub serve : List ServeEvent → Serving → Serving
serve [] s = s
serve (e ∷ es) s = serve es (serve_step e s)

abbrev pub new_forwarder : Conn → Forwarder
new_forwarder stream = record { stream = stream; sessions = []; sent = [] }

abbrev pub not_started : Err → Conn → Serving
not_started e stream = record {
  forwarder = new_forwarder stream;
  reads_socket = false;
  returned = some e;
}

-- `ServerUDP` on a stream, while these events come.
unfoldable pub server_udp : (resolve listen : Result (Unit {0})) → List ServeEvent → Conn → Serving
server_udp (err e) listen es stream = not_started e stream
server_udp (ok _) (err e) es stream = not_started e stream
server_udp (ok _) (ok _) es stream =
    serve es (record { forwarder = new_forwarder stream; reads_socket = true; returned = none })

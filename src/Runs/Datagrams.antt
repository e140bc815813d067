-- ===== src/Runs/Datagrams.antt =====
-- A datagram from one address, and the replies to it.
use rathole_pro.Prelude.{
  ℕ, ◌≤◌, ◌≡◌, ◌≢◌, refl, false, List, [], ◌∷◌, ◌++◌, length, some, none, All, arith,
}
use rathole_pro.Prelude.Words.{put_u16, big_endian}
use rathole_pro.Prelude.Text.{bytes_eq}
use rathole_pro.Prelude.Exec.{ok, eof}
use rathole_pro.Net.{Conn, write, read_full}
use rathole_pro.Udp.Sessions.{Table, find, store, delete_if}
use rathole_pro.Udp.{
  UdpSession, Forwarder, session_timeout, server_frame, on_datagram, on_frame, on_tick,
  read_server_frame, client_frame, read_client_frame, Event, datagram, frame, tick, step, run,
}
use rathole_pro.Udp.Serving.{
  ServeEvent, round, socket_error, serve, serve_step, serve_round, server_udp,
}
use rathole_pro.Udp.Serving.Silent.{reply_frames, server_udp_silent}
use rathole_pro.Udp.Local.{local_round, on_reply}
use rathole_pro.Udp.Local.Order.{Datagram, frames, IsSmall}
use rathole_pro.Udp.Local.Ends.{
  LocalEvent, stream_frame, reply, local_step, local_serve, client_udp,
}
use rathole_pro.Udp.Local.Ends as Ends
use rathole_pro.Udp.Passage.{came}
use rathole_pro.Udp.Passage.Whole.{IsPassedOn, client_udp-server_udp, client_udp-IsPassedOn}

abbrev addr : List ℕ
addr = b'h' ∷ b':' ∷ b'1' ∷ []

abbrev conn_of : List ℕ → Conn
conn_of incoming = record { incoming = incoming; outgoing = []; room = 100; closed = false }

abbrev start_of : List ℕ → Forwarder
start_of incoming = record { stream = conn_of incoming; sessions = []; sent = [] }

frame_fits : length (server_frame addr (1 ∷ 2 ∷ [])) ≤ 100
unfolding server_frame put_u16
frame_fits = omega arith

abbrev keyed : Forwarder
keyed = on_tick 7 (on_datagram addr (1 ∷ []) 5 (start_of (server_frame addr (3 ∷ []) ++ []))).1

keyed_stream :
    (keyed.stream.closed ≡ false) × (keyed.stream.incoming ≡ server_frame addr (3 ∷ []) ++ [])
unfolding on_tick on_datagram write
keyed_stream = ground arith

abbrev session : UdpSession
session = record { addr = addr; last_seen = 5 }

abbrev with_session : Forwarder
with_session = record (start_of []) { sessions = (addr, session) ∷ [] }

session_found : find addr with_session.sessions ≡ some session
unfolding find
session_found = unfold rathole_pro.Udp.Sessions.bytes_eq in refl

abbrev events : List Event
events = datagram addr (1 ∷ []) 5 ∷ tick 6 ∷ []

abbrev after_events : Forwarder
after_events = run events (start_of (client_frame (3 ∷ []) ++ []))

after_events_stream :
    (after_events.stream.closed ≡ false)
    × (after_events.stream.incoming ≡ client_frame (3 ∷ []) ++ [])
unfolding run step on_tick on_datagram write
after_events_stream = ground arith

addr_there : addr ≢ []
addr_there e = cc

abbrev serve_events : List ServeEvent
serve_events =
    round (datagram addr (1 ∷ []) 5)
    ∷ round frame
    ∷ round (tick 6)
    ∷ socket_error
    ∷ round frame
    ∷ []

server_udp_silent_example :
    (server_udp
      (ok tt)
      (ok tt)
      serve_events
      (conn_of (reply_frames ((3 ∷ []) ∷ (4 ∷ 5 ∷ []) ∷ [])))).forwarder.sent
    ≡ []
server_udp_silent_example =
    server_udp_silent (ok tt) (ok tt) serve_events
      (conn_of (reply_frames ((3 ∷ []) ∷ (4 ∷ 5 ∷ []) ∷ []))) ((3 ∷ []) ∷ (4 ∷ 5 ∷ []) ∷ [])
      (addr_there, (tt, (tt, (tt, (tt, tt))))) (omega arith, (omega arith, tt)) refl refl

abbrev two : List Datagram
two =
    record { addr = addr; payload = 1 ∷ 2 ∷ []; at_time = 5 }
    ∷ record { addr = addr; payload = 3 ∷ []; at_time = 6 }
    ∷ []

frames_fit : length (frames two) ≤ 100
unfolding server_frame put_u16
frames_fit = omega arith

abbrev both_ways : List ServeEvent
both_ways =
    round (datagram addr (1 ∷ 2 ∷ []) 5)
    ∷ round frame
    ∷ round (tick 6)
    ∷ round (datagram addr (3 ∷ []) 6)
    ∷ []

abbrev local_events : List LocalEvent
local_events = stream_frame ∷ reply (7 ∷ []) ∷ stream_frame ∷ []

abbrev served_stream : Conn
served_stream = conn_of (reply_frames ((9 ∷ []) ∷ []))

abbrev local_stream : Conn
local_stream =
    conn_of (server_udp (ok tt) (ok tt) both_ways served_stream).forwarder.stream.outgoing

both_fit : All IsSmall (came both_ways)
both_fit = ((omega arith, omega arith), ((omega arith, omega arith), tt))

serves_on : (server_udp (ok tt) (ok tt) both_ways served_stream).returned ≡ none
unfolding server_udp serve serve_step serve_round on_frame read_server_frame client_frame put_u16
    on_datagram write server_frame read_full big_endian
serves_on = refl

local_on : (client_udp (ok tt) (ok tt) local_events local_stream).returned ≡ none
unfolding client_udp local_serve local_step on_reply write client_frame put_u16 local_round
    read_client_frame read_full server_udp serve serve_step serve_round on_datagram server_frame
    on_frame read_server_frame big_endian on_tick find store bytes_eq
local_on = refl

client_udp-server_udp_example :
    (client_udp (ok tt) (ok tt) local_events local_stream).forwarder.to_service
    ≡ (1 ∷ 2 ∷ []) ∷ (3 ∷ []) ∷ []
client_udp-server_udp_example =
    client_udp-server_udp (ok tt) (ok tt) (ok tt) (ok tt) both_ways local_events served_stream
      local_stream refl refl frames_fit both_fit refl refl (tt, (tt, (tt, (tt, tt)))) (omega arith)
      serves_on local_on

client_udp-IsPassedOn_example :
    IsPassedOn
      (came both_ways)
      (client_udp
        (ok tt)
        (ok tt)
        (Ends.socket_error eof ∷ local_events)
        local_stream).forwarder.to_service
client_udp-IsPassedOn_example =
    client_udp-IsPassedOn (ok tt) (ok tt) (ok tt) (ok tt) both_ways
      (Ends.socket_error eof ∷ local_events) served_stream local_stream refl refl frames_fit
      both_fit refl refl

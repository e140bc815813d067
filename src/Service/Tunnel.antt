-- ===== src/Service/Tunnel.antt =====
-- The two relays of a visitor, that of `handleVisitor` and that of `handleTCPStream`, with the yamux
-- stream between them: each end of the stream gets what the other end's relay writes, and learns
-- of the other end's `Close` behind that. A write error, a read error or the end of the yamux
-- session is a copy that fails.
pub mod Link
pub mod Ends
pub mod Hangs
use rathole_pro.Prelude.{
  ℕ, Bool, true, false, ◌&&◌, ◌||◌, List, [], ◌∷◌, ◌++◌, if◌then◌else◌, take, drop,
}
use rathole_pro.Relay.{
  Copy, into_a, into_b, Relaying, Event, arrives, ends, moves, finishes, fails, relay_step,
  copy_done, is_cut, source, is_nil,
}

-- The relays, and what is on the way in the stream, up to the client and down to the server.
pub record Tunnel : Type 0 where
  pub server : Relaying
  pub client : Relaying
  pub up : List ℕ
  pub down : List ℕ

pub data Work : Type 0 where
  move_piece : ℕ → Work
  finish fail : Work

abbrev pub event_of : Copy → Work → Event
event_of c (move_piece n) = moves c n
event_of c finish = finishes c
event_of c fail = fails c

pub data TunnelEvent : Type 0 where
  visitor_sends service_sends : List ℕ → TunnelEvent
  visitor_ends service_ends : TunnelEvent
  server_copy client_copy : Copy → Work → TunnelEvent
  carries_up carries_down : ℕ → TunnelEvent
  ends_up ends_down : TunnelEvent

-- What an event makes a copy write.
abbrev pub written : Copy → Event → Relaying → List ℕ
written into_a (moves into_a n) r =
    if r.into_a_done || is_cut into_a r then [] else take n r.b.incoming
written into_b (moves into_b n) r =
    if r.into_b_done || is_cut into_b r then [] else take n r.a.incoming
written into_a (moves into_b n) r = []
written into_b (moves into_a n) r = []
written c (arrives d bytes) r = []
written c (ends d) r = []
written c (finishes d) r = []
written c (fails d) r = []

abbrev pub server_does : Event → Tunnel → Tunnel
server_does e t = record t {
  server = relay_step e t.server;
  up = t.up ++ written into_b e t.server;
}

abbrev pub client_does : Event → Tunnel → Tunnel
client_does e t = record t {
  client = relay_step e t.client;
  down = t.down ++ written into_a e t.client;
}

abbrev pub with_up : List ℕ → Tunnel → Tunnel
with_up bytes t = record t { up = bytes }

abbrev pub with_down : List ℕ → Tunnel → Tunnel
with_down bytes t = record t { down = bytes }

unfoldable pub tunnel_step : TunnelEvent → Tunnel → Tunnel
tunnel_step (visitor_sends bytes) t = server_does (arrives into_b bytes) t
tunnel_step (service_sends bytes) t = client_does (arrives into_a bytes) t
tunnel_step visitor_ends t = server_does (ends into_b) t
tunnel_step service_ends t = client_does (ends into_a) t
tunnel_step (server_copy c w) t = server_does (event_of c w) t
tunnel_step (client_copy c w) t = client_does (event_of c w) t
tunnel_step (carries_up n) t =
    if t.client.a.eof
    then t
    else client_does (arrives into_b (take n t.up)) (with_up (drop n t.up) t)
tunnel_step (carries_down n) t =
    if t.server.b.eof
    then t
    else server_does (arrives into_a (take n t.down)) (with_down (drop n t.down) t)
tunnel_step ends_up t = if t.server.b.closed && is_nil t.up then client_does (ends into_b) t else t
tunnel_step ends_down t =
    if t.client.a.closed && is_nil t.down then server_does (ends into_a) t else t

unfoldable pub tunnel : List TunnelEvent → Tunnel → Tunnel
tunnel [] t = t
tunnel (e ∷ es) t = tunnel es (tunnel_step e t)

-- The events of the relay at each end.
abbrev pub at_server : TunnelEvent → Tunnel → List Event
at_server (visitor_sends bytes) t = arrives into_b bytes ∷ []
at_server visitor_ends t = ends into_b ∷ []
at_server (server_copy c w) t = event_of c w ∷ []
at_server (carries_down n) t = if t.server.b.eof then [] else arrives into_a (take n t.down) ∷ []
at_server ends_down t = if t.client.a.closed && is_nil t.down then ends into_a ∷ [] else []
at_server _ t = []

abbrev pub at_client : TunnelEvent → Tunnel → List Event
at_client (service_sends bytes) t = arrives into_a bytes ∷ []
at_client service_ends t = ends into_a ∷ []
at_client (client_copy c w) t = event_of c w ∷ []
at_client (carries_up n) t = if t.client.a.eof then [] else arrives into_b (take n t.up) ∷ []
at_client ends_up t = if t.server.b.closed && is_nil t.up then ends into_b ∷ [] else []
at_client _ t = []

unfoldable pub server_events : List TunnelEvent → Tunnel → List Event
server_events [] t = []
server_events (e ∷ es) t = at_server e t ++ server_events es (tunnel_step e t)

unfoldable pub client_events : List TunnelEvent → Tunnel → List Event
client_events [] t = []
client_events (e ∷ es) t = at_client e t ++ client_events es (tunnel_step e t)

-- ===== src/Service.antt =====
-- A visitor of a TCP service: `handleVisitor` of go-core/server/server.go and `handleTCPStream` of
-- go-core/client/client.go with the relays that they end in.
-- `stream_of` is the stream that yamux opened, and `dial` what `net.DialTimeout` gives.
pub mod Tunnel
pub mod Visitor
use rathole_pro.Prelude.{ℕ, String, Bool, true, false, List, Option, none, some}
use rathole_pro.Prelude.Exec.{Err, Result}
use rathole_pro.Net.{Conn}
use rathole_pro.Relay.{Event, Relaying, end_of, start_relay, relay}
use rathole_pro.Server.Pool.{SessionPool}
use rathole_pro.Server.Auth.{Visit, no_client, open_failed, relayed, Visited, handle_visitor}
use rathole_pro.Client.Session.{
  StreamEnd, no_local_addr, connect_local, relaying, handle_tcp_stream,
}

-- The relay of the server starts with the visitor and the stream, the client's with the stream and
-- the local service.
abbrev pub server_start : Conn → Conn → Relaying
server_start visitor stream = start_relay (end_of true visitor) (end_of false stream)

abbrev pub client_start : Conn → Conn → Relaying
client_start stream local = start_relay (end_of false stream) (end_of true local)

abbrev relay_visit : (stream_of : ℕ → Conn) → List Event → Conn → Visit → Option Relaying
relay_visit stream_of es visitor no_client = none
relay_visit stream_of es visitor (open_failed e) = none
relay_visit stream_of es visitor (relayed session stream) =
    some (relay es (server_start visitor (stream_of stream)))

-- `handleVisitor`, with its relay while these events come.
unfoldable pub serve_visitor :
    (is_closed closed_later : ℕ → Bool) (open_stream : ℕ → Result ℕ) (stream_of : ℕ → Conn)
    → List Event
    → Conn
    → SessionPool
    → Visited × Option Relaying
serve_visitor is_closed closed_later open_stream stream_of es visitor pool =
    let v = handle_visitor is_closed closed_later open_stream visitor pool in
    (v, relay_visit stream_of es v.visitor v.visit)

abbrev relay_stream : List Event → StreamEnd → Option Relaying
relay_stream es (no_local_addr stream) = none
relay_stream es (connect_local e stream) = none
relay_stream es (relaying stream local) = some (relay es (client_start stream local))

-- `handleTCPStream`, with its relay while these events come.
unfoldable pub forward_stream :
    (dial : String → Result Conn) → List Event → String → Conn → StreamEnd × Option Relaying
forward_stream dial es local_addr stream =
    let e = handle_tcp_stream dial local_addr stream in (e, relay_stream es e)

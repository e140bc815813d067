-- ===== src/Client/Session/OverWs.antt =====
-- A client and a server behind the WebSocket transport, from the dialled connection to the session
-- in the pool: go-core/client/client.go, go-core/server/server.go and go-core/transport/websocket.go.
use rathole_pro.Prelude.{ℕ, ◌≡◌, ◌∙◌, String, true, List, Option, some}
use rathole_pro.Prelude.Int.{ℤ}
use rathole_pro.Prelude.Exec.{Err, Result, ok}
use rathole_pro.Net.{Conn}
use rathole_pro.Config.{TransportConfig, service_type}
use rathole_pro.Protocol.{Json, Encodes}
use rathole_pro.Transport.WebSocket.Meeting.{IsBase64}
use rathole_pro.Transport.Stream.{Stream, stream_wire}
use rathole_pro.Transport.Stream.Writes.{left}
use rathole_pro.Transport.Stream.Messages.{message_sent}
use rathole_pro.Transport.Factory.{TlsClient}
use rathole_pro.Server.Auth.{Pools, auth_response}
use rathole_pro.Server.Auth.Admission.{HasPool}
use rathole_pro.Server.Run.{Accepted}
use rathole_pro.Client.Meeting.{Meeting, client_hash, server_hash}
use rathole_pro.Client.Session.Returns.{dials_lem, dials, connects}
use rathole_pro.Client.Session.OverStream.{Ends-Connects, Connects}
use rathole_pro.Client.Session.WsEnds.{
  WsEnds, WsMeets, server_stream, stream_ends, server_upgrades, client_upgrades, client_stream,
}

module _ {Pool : Type 0} (read_file : String → Result (List ℕ))
    (certs_from_pem : List ℕ → Option Pool) (tls_dial : String → ℤ → TlsClient Pool → Result Conn)
    (dial : String → ℤ → Result Conn) (decode : String → Option (List ℕ))
    (base64 sha1 : List ℕ → List ℕ) (server_entropy client_entropy : Result (List ℕ)) (json : Json)
    (hash_token : String → String) (m : Meeting json hash_token) (w : WsEnds)
    (base : IsBase64 base64) {answer : List ℕ}
    (h : WsMeets base64 sha1 w m.auth_payload answer) where
  open m use {cc, sc, name, client_svc, server_svc}

  -- What the client's `dialWithTransport` gives.
  abbrev pub dialled : Result Stream
  dialled =
      (dials read_file certs_from_pem tls_dial dial decode client_entropy base64 sha1
        w.client_random w.ahead w.key_bytes cc).0

  -- What the server's accept loop gets.
  abbrev pub accepted : Accepted
  accepted = record {
    conn = w.server;
    entropy = server_entropy;
    random = w.server_random;
    ahead = w.ahead;
  }

  -- The server's stream when yamux takes it.
  abbrev pub served_stream : Stream
  served_stream = message_sent (left (server_stream base64 sha1 w base h) w.server_rest) answer

  dialled_lem :
      (t : TransportConfig)
      → cc.remote_addr ≡ w.host
      → (cc.transport ≡ some t) × (t.kind ≡ "ws") × (t.web_socket ≡ w.config)
      → connects read_file certs_from_pem tls_dial dial decode client_entropy base64 sha1
          w.client_random w.ahead w.key_bytes cc
        ≡ ok w.client
      → dialled ≡ ok (client_stream base64 sha1 w base h)
  dialled_lem t host (over, kind, cfg) up =
      dials_lem read_file certs_from_pem tls_dial dial decode client_entropy base64 sha1
        w.client_random w.ahead w.key_bytes cc w.client up
      ∙ rw (over, host) (client_upgrades base64 sha1 w base h decode client_entropy t kind cfg)

  -- A client and a server with transports of the type `ws`, on open connections with room for what
  -- they send, each of which receives what the other end sends, head and message, with a host and
  -- a path without line feeds, a key of some bytes, readers that take no byte ahead, messages of
  -- at most 16 MiB and a Base64 whose texts hold no spaces and are not empty for some bytes; two
  -- tokens of the same hash, and a pool for the service: if yamux gives sessions at both ends, the
  -- session of the server joins the pool of the service, and the client's session passes on the
  -- streams of its own and ends with yamux's error.
  pub ws_session-Connects :
      (yamux_server yamux_client : Stream → Result ℕ) (accepts : ℕ → List ℕ × Err)
      (st ct : TransportConfig) (session client_session : ℕ) (pools : Pools)
      → cc.remote_addr ≡ w.host
      → (sc.transport ≡ some st) × (st.kind ≡ "ws")
      → (cc.transport ≡ some ct) × (ct.kind ≡ "ws") × (ct.web_socket ≡ w.config)
      → connects read_file certs_from_pem tls_dial dial decode client_entropy base64 sha1
          w.client_random w.ahead w.key_bytes cc
        ≡ ok w.client
      → client_hash m ≡ server_hash m
      → Encodes json (auth_response true "OK") answer
      → HasPool name (service_type server_svc) pools
      → yamux_server served_stream ≡ ok session
      → ((s : Stream) → yamux_client s ≡ ok client_session)
      → Connects decode base64 sha1 json hash_token m yamux_server yamux_client accepts accepted
          dialled session client_session pools
  ws_session-Connects yamux_server yamux_client accepts st ct session client_session pools host
        (s_over, s_kind) c_over up same enc has y_s y_c =
      Ends-Connects decode base64 sha1 json hash_token m yamux_server yamux_client accepts
        (stream_ends base64 sha1 w base h) accepted dialled session client_session pools
        (dialled_lem ct host c_over up)
        (rw s_over (server_upgrades base64 sha1 w base h decode server_entropy st s_kind)) same enc
        has y_s y_c

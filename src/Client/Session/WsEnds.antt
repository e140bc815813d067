-- ===== src/Client/Session/WsEnds.antt =====
-- Two ends of a connection that both upgrade it to a WebSocket: go-core/transport/websocket.go, and what
-- applies it in go-core/client/client.go and go-core/server/server.go.
use rathole_pro.Prelude.{
  ℕ, ◌+◌, ◌≤◌, ◌<◌, ◌≡◌, ◌≢◌, ◌∙◌, refl, ap, sym, arith, String, Bool, true, false, List, [], ◌++◌,
  Option, some, length,
}
use rathole_pro.Prelude.Text.{bytes, Lacks}
use rathole_pro.Prelude.Exec.{Result, Exec, ok}
use rathole_pro.Net.{Conn}
use rathole_pro.Config.{WebSocketConfig, TransportConfig}
use rathole_pro.Protocol.{max_frame_size}
use rathole_pro.Transport.WsFrame.{WsConn, new_ws_conn, mask_key}
use rathole_pro.Transport.WebSocket.{
  guid, upgrade_path, upgrade_request, upgrade_response, ws_client_upgrade, ws_server_upgrade,
}
use rathole_pro.Transport.WebSocket.Upgrade.{Upgraded}
use rathole_pro.Transport.WebSocket.Meeting.{IsBase64, upgrade_meets}
use rathole_pro.Transport.Stream.{Stream, ws_stream, stream_wire}
use rathole_pro.Transport.Stream.Writes.{ws_meets}
use rathole_pro.Transport.Stream.Messages.{message_bytes, Ends}
use rathole_pro.Transport.Factory.{apply_server_transport, apply_client_transport, or_close}

-- The bytes of a message of one side, whose masking keys start where the upgrade left them.
abbrev pub ws_message : Conn → Bool → (ℕ → ℕ) → List ℕ → List ℕ
ws_message conn is_client random payload =
    message_bytes (ws_stream (new_ws_conn conn is_client random)) payload

ws_message_any :
    (c d : Conn) (is_client : Bool) (random : ℕ → ℕ) (payload : List ℕ)
    → ws_message c is_client random payload ≡ ws_message d is_client random payload
unfolding new_ws_conn mask_key
ws_message_any c d is_client random payload = refl

or_close_ok :
    (x : Exec Conn WsConn) (c : Conn) (v : WsConn)
    → (x c).0 ≡ ok v
    → (or_close x c).0 ≡ ok (ws_stream v)
unfolding or_close
or_close_ok x c v h = ground (arith, h)

-- Two ends of one connection, and what they draw and send.
pub record WsEnds : Type 0 where
  pub server : Conn
  pub client : Conn
  pub server_random : ℕ → ℕ
  pub client_random : ℕ → ℕ
  pub ahead : ℕ → ℕ
  pub key_bytes : List ℕ
  pub host : String
  pub config : Option WebSocketConfig
  pub server_rest : List ℕ
  pub client_rest : List ℕ

module _ (base64 sha1 : List ℕ → List ℕ) (w : WsEnds) where
  abbrev pub request : List ℕ
  request = upgrade_request (bytes (upgrade_path w.config)) (bytes w.host) (base64 w.key_bytes)

  abbrev pub response : List ℕ
  response = upgrade_response (base64 (sha1 (base64 w.key_bytes ++ guid)))

  -- Each end receives what the other sends, its head and its message, and has room for what it
  -- sends; the readers of the heads take no byte ahead.
  pub record WsMeets (ask answer : List ℕ) : Type 0 where
    pub draws : w.key_bytes ≢ []
    pub host_line : Lacks b'\n' (bytes w.host)
    pub path_line : Lacks b'\n' (bytes (upgrade_path w.config))
    pub none_ahead : (i : ℕ) → w.ahead i ≡ 0
    pub server_open : w.server.closed ≡ false
    pub client_open : w.client.closed ≡ false
    pub server_reads :
        w.server.incoming
        ≡ request ++ (ws_message w.client true w.client_random ask ++ w.server_rest)
    pub client_reads :
        w.client.incoming
        ≡ response ++ (ws_message w.server false w.server_random answer ++ w.client_rest)
    pub server_room :
        length response + length (ws_message w.server false w.server_random answer) ≤ w.server.room
    pub client_room :
        length request + length (ws_message w.client true w.client_random ask) ≤ w.client.room
    pub ask_fits : (0 < length ask) × (length ask ≤ max_frame_size)
    pub answer_fits : (0 < length answer) × (length answer ≤ max_frame_size)

  module _ (base : IsBase64 base64) {ask answer : List ℕ} (h : WsMeets ask answer) where
    abbrev pub ask_bytes : List ℕ
    ask_bytes = ws_message w.client true w.client_random ask

    abbrev pub answer_bytes : List ℕ
    answer_bytes = ws_message w.server false w.server_random answer

    pub client-Upgraded :
        Upgraded w.client_random w.ahead w.client true request (answer_bytes ++ w.client_rest) (
          ws_client_upgrade base64 sha1 w.client_random w.ahead w.key_bytes w.host w.config
            w.client)
    client-Upgraded =
        (upgrade_meets base64 sha1 base w.client_random w.ahead w.key_bytes w.host w.config w.client
          w.server (answer_bytes ++ w.client_rest) (ask_bytes ++ w.server_rest) h.draws h.host_line
          h.path_line h.client_open h.server_open h.client_reads h.server_reads
          (omega (arith, h.client_room)) (omega (arith, h.server_room))).0

    pub server-Upgraded :
        Upgraded w.server_random w.ahead w.server false response
          (ask_bytes ++ w.server_rest)
          (ws_server_upgrade base64 sha1 w.server_random w.ahead w.server)
    server-Upgraded =
        (upgrade_meets base64 sha1 base w.server_random w.ahead w.key_bytes w.host w.config w.client
          w.server (answer_bytes ++ w.client_rest) (ask_bytes ++ w.server_rest) h.draws h.host_line
          h.path_line h.client_open h.server_open h.client_reads h.server_reads
          (omega (arith, h.client_room)) (omega (arith, h.server_room))).1

    -- The streams of the two ends after the upgrades.
    abbrev pub server_stream : Stream
    server_stream = ws_stream server-Upgraded.ws

    abbrev pub client_stream : Stream
    client_stream = ws_stream client-Upgraded.ws

    ask_lem : message_bytes client_stream ask ≡ ask_bytes
    ask_lem =
        ap (λ (v : WsConn). message_bytes (ws_stream v) ask) client-Upgraded.fresh
        ∙ ws_message_any client-Upgraded.ws.raw w.client true w.client_random ask

    answer_lem : message_bytes server_stream answer ≡ answer_bytes
    answer_lem =
        ap (λ (v : WsConn). message_bytes (ws_stream v) answer) server-Upgraded.fresh
        ∙ ws_message_any server-Upgraded.ws.raw w.server false w.server_random answer

    pub stream_ends : Ends client_stream server_stream ask answer w.server_rest w.client_rest
    stream_ends = record {
      to_server = ws_meets server-Upgraded.nothing_pending;
      to_client = ws_meets client-Upgraded.nothing_pending;
      client_open = client-Upgraded.open_still;
      server_open = server-Upgraded.open_still;
      client_room = omega (arith, h.client_room, client-Upgraded.room_left, ap length ask_lem);
      server_room = omega (arith, h.server_room, server-Upgraded.room_left, ap length answer_lem);
      server_reads =
          sym (
            server-Upgraded.splits
            ∙ ap (λ (l : List ℕ). l ++ server-Upgraded.ws.raw.incoming)
                (server-Upgraded.none_lost h.none_ahead))
          ∙ ap (λ (b : List ℕ). b ++ w.server_rest) (sym ask_lem);
      client_reads =
          sym (
            client-Upgraded.splits
            ∙ ap (λ (l : List ℕ). l ++ client-Upgraded.ws.raw.incoming)
                (client-Upgraded.none_lost h.none_ahead))
          ∙ ap (λ (b : List ℕ). b ++ w.client_rest) (sym answer_lem);
      ask_fits = h.ask_fits;
      answer_fits = h.answer_fits;
    }

    pub server_upgrades :
        (decode : String → Option (List ℕ)) (entropy : Result (List ℕ)) (t : TransportConfig)
        → t.kind ≡ "ws"
        → (apply_server_transport decode entropy base64 sha1 w.server_random w.ahead
            (some t)
            w.server).0
          ≡ ok server_stream
    unfolding apply_server_transport
    server_upgrades decode entropy t kind = rw kind (
        or_close_ok (ws_server_upgrade base64 sha1 w.server_random w.ahead) w.server
          server-Upgraded.ws server-Upgraded.returns)

    pub client_upgrades :
        (decode : String → Option (List ℕ)) (entropy : Result (List ℕ)) (t : TransportConfig)
        → t.kind ≡ "ws"
        → t.web_socket ≡ w.config
        → (apply_client_transport decode entropy base64 sha1 w.client_random w.ahead w.key_bytes
            w.host
            (some t)
            w.client).0
          ≡ ok client_stream
    unfolding apply_client_transport
    client_upgrades decode entropy t kind cfg =
        rw (kind, cfg)
          (or_close_ok
            (ws_client_upgrade base64 sha1 w.client_random w.ahead w.key_bytes w.host w.config)
            w.client client-Upgraded.ws client-Upgraded.returns)

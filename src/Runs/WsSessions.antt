-- ===== src/Runs/WsSessions.antt =====
-- A session of a client behind the WebSocket transport, with its server.
use rathole_pro.Prelude.{
  ℕ, ◌≡◌, refl, String, Bool, true, false, List, [], ◌∷◌, ◌++◌, none, some, arith,
}
use rathole_pro.Prelude.Int.{ℤ}
use rathole_pro.Prelude.Text.{bytes}
use rathole_pro.Prelude.Words.{put_u32}
use rathole_pro.Prelude.Exec.{Result, ok, err, eof}
use rathole_pro.Net.{Conn}
use rathole_pro.Config.{ClientConfig, TransportConfig, get_transport_type}
use rathole_pro.Protocol.{header}
use rathole_pro.Transport.WsFrame.{frame, mask_key, new_ws_conn, length_bytes}
use rathole_pro.Transport.Xor.{xor_from}
use rathole_pro.Transport.Factory.{TlsClient, client_dial}
use rathole_pro.Transport.WebSocket.{upgrade_path, upgrade_request, upgrade_response}
use rathole_pro.Client.Meeting.{Meeting}
use rathole_pro.Client.Session.Returns.{dials, connects}
use rathole_pro.Client.Session.OverStream.{Connects}
use rathole_pro.Client.Session.WsEnds.{WsEnds, WsMeets, ws_message}
use rathole_pro.Client.Session.OverWs.{ws_session-Connects}
use rathole_pro.Runs.Auth as Auth
use rathole_pro.Runs.Auth.{
  hash, codec, client_config, server_config, secret_set, service_known, Encodes_auth, Encodes_ok,
  pools-HasPool,
}
use rathole_pro.Runs.Upgrade.{base64, sha1, base64-IsBase64}

abbrev ws : TransportConfig
ws = record { kind = "ws"; tls = none; noise = none; web_socket = none }

abbrev ws_client : ClientConfig
ws_client = record client_config { transport = some ws }

abbrev meeting : Meeting (codec "") hash
meeting = record {
  cc = ws_client;
  sc = record server_config { transport = some ws };
  name = "web";
  client_svc = Auth.service "";
  server_svc = Auth.service "";
  auth_payload = 1 ∷ [];
  encodes_auth = Encodes_auth "";
  client_token = secret_set;
  known = service_known;
  server_token = secret_set;
}

abbrev conn_of : List ℕ → Conn
conn_of incoming = record { incoming = incoming; outgoing = []; room = 500; closed = false }

abbrev request : List ℕ
request = upgrade_request (bytes "/tunnel") (bytes client_config.remote_addr) (bytes "QUJD")

abbrev response : List ℕ
response = upgrade_response (bytes "QUJD")

abbrev message : Bool → ℕ → List ℕ
message is_client b = ws_message (conn_of []) is_client (λ i. i) (b ∷ [])

abbrev ends : WsEnds
ends = record {
  server = conn_of (request ++ (message true 1 ++ 5 ∷ []));
  client = conn_of (response ++ (message false 2 ++ []));
  server_random = λ i. i;
  client_random = λ i. i;
  ahead = λ i. 0;
  key_bytes = 9 ∷ [];
  host = client_config.remote_addr;
  config = none;
  server_rest = 5 ∷ [];
  client_rest = [];
}

meets : WsMeets base64 sha1 ends (1 ∷ []) (2 ∷ [])
unfolding upgrade_path upgrade_request upgrade_response new_ws_conn mask_key length_bytes frame
    header put_u32 xor_from
meets = record {
  draws = ground arith;
  host_line = omega arith;
  path_line = omega arith;
  none_ahead = λ i. refl;
  server_open = refl;
  client_open = refl;
  server_reads = refl;
  client_reads = refl;
  server_room = omega arith;
  client_room = omega arith;
  ask_fits = (omega arith, omega arith);
  answer_fits = (omega arith, omega arith);
}

abbrev no_tls : String → ℤ → TlsClient (Unit {0}) → Result Conn
no_tls addr timeout c = err eof

abbrev dial_ws : String → ℤ → Result Conn
dial_ws addr timeout = ok ends.client

dial_ws-connects :
    connects
      (λ path. err eof)
      (λ pem. none)
      no_tls
      dial_ws
      (λ text. none)
      (err eof)
      base64
      sha1
      (λ i. i)
      (λ i. 0)
      (9 ∷ [])
      ws_client
    ≡ ok ends.client
unfolding client_dial get_transport_type
dial_ws-connects = refl

ws_session-Connects_example :
    Connects
      (λ text. none)
      base64
      sha1
      (codec "")
      hash
      meeting
      (λ s. ok 7)
      (λ s. ok 8)
      (λ s. (2 ∷ 3 ∷ [], eof))
      (record { conn = ends.server; entropy = err eof; random = λ i. i; ahead = λ i. 0 })
      (dials
        (λ path. err eof)
        (λ pem. none)
        no_tls
        dial_ws
        (λ text. none)
        (err eof)
        base64
        sha1
        (λ i. i)
        (λ i. 0)
        (9 ∷ [])
        ws_client).0
      7
      8
      Auth.pools
ws_session-Connects_example =
    ws_session-Connects (λ path. err eof) (λ pem. none) no_tls dial_ws (λ text. none) base64 sha1
      (err eof) (err eof) (codec "") hash meeting ends base64-IsBase64 meets (λ s. ok 7) (λ s. ok 8)
      (λ s. (2 ∷ 3 ∷ [], eof)) ws ws 7 8 Auth.pools refl (refl, refl) (refl, refl, refl)
      dial_ws-connects refl (Encodes_ok "") pools-HasPool refl (λ s. refl)

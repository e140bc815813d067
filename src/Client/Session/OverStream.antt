-- ===== src/Client/Session/OverStream.antt =====
-- A client and a server on the two ends of a stream, from the session on the client to the pool on
-- the server: go-core/client/client.go and go-core/server/server.go.
use rathole_pro.Prelude.{ℕ, ◌≡◌, refl, String, true, List, [], ◌∷◌, Option, some}
use rathole_pro.Prelude.Exec.{Err, Result, ok, wrapf}
use rathole_pro.Config.{service_type}
use rathole_pro.Protocol.{Json, Encodes}
use rathole_pro.Transport.Stream.{Stream, stream_wire}
use rathole_pro.Transport.Stream.Writes.{left}
use rathole_pro.Transport.Stream.Messages.{message_sent, Ends}
use rathole_pro.Server.Auth.{Pools, auth_response, handle_client_conn}
use rathole_pro.Server.Auth.Admission.{Joins, HasPool}
use rathole_pro.Server.Run.{Accepted, upgraded, admit, control_loop}
use rathole_pro.Client.Meeting.{Meeting, client_hash, server_hash}
use rathole_pro.Client.Handshake.{handshake_accepts}
use rathole_pro.Client.Session.{run_tcp_session}
use rathole_pro.Client.Session.Returns.{run_tcp_session_lem}

module _ (decode : String → Option (List ℕ)) (base64 sha1 : List ℕ → List ℕ) (json : Json)
    (hash_token : String → String) (m : Meeting json hash_token)
    (yamux_server yamux_client : Stream → Result ℕ) (accepts : ℕ → List ℕ × Err) where
  open m use {cc, sc, name, client_svc, server_svc, auth_payload}

  -- The session of the server is in the pool of the service, and the client's session has passed on
  -- what yamux gave it, and ended with yamux's error.
  abbrev pub Connects : Accepted → Result Stream → (session client_session : ℕ) → Pools → Type 0
  Connects a dialled session client_session pools =
      let after =
        control_loop json hash_token yamux_server decode base64 sha1 sc (ok a ∷ []) pools in
      let ended = run_tcp_session json hash_token yamux_client accepts dialled name client_svc cc in
      Joins name (service_type server_svc) session pools after
      × (ended.streams ≡ (accepts client_session).0)
      × (ended.error ≡ some (wrapf "yamux accept" (accepts client_session).1))

  admitted_lem :
      (a : Accepted) (server : Stream) (pools : Pools)
      → upgraded json hash_token yamux_server decode base64 sha1 sc a ≡ ok server
      → control_loop json hash_token yamux_server decode base64 sha1 sc (ok a ∷ []) pools
        ≡ (handle_client_conn json hash_token yamux_server sc server pools).pools
  unfolding control_loop admit
  admitted_lem a server pools up = rw up refl

  pub Ends-Connects :
      {client server : Stream} {answer server_rest client_rest : List ℕ}
      (e : Ends client server auth_payload answer server_rest client_rest) (a : Accepted)
      (dialled : Result Stream) (session client_session : ℕ) (pools : Pools)
      → dialled ≡ ok client
      → upgraded json hash_token yamux_server decode base64 sha1 sc a ≡ ok server
      → client_hash m ≡ server_hash m
      → Encodes json (auth_response true "OK") answer
      → HasPool name (service_type server_svc) pools
      → yamux_server (message_sent (left server server_rest) answer) ≡ ok session
      → ((s : Stream) → yamux_client s ≡ ok client_session)
      → Connects a dialled session client_session pools
  Ends-Connects {client = client} {server = server} e a dialled session client_session pools down up
        same enc has y_s y_c =
      let (o, j, k, sent, auth) =
        handshake_accepts json hash_token yamux_server m e session pools same enc has y_s in
      let (passed, failed) =
        run_tcp_session_lem json hash_token yamux_client accepts name client_svc cc client
          client_session auth (y_c _) in
      rw (admitted_lem a server pools up, down) (j, passed, failed)

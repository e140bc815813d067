-- ===== src/Client/Session/OverNoise.antt =====
-- A client and a server behind the noise transport, from the dialled connection to the session in
-- the pool: go-core/client/client.go, go-core/server/server.go and go-core/transport/noise.go.
use rathole_pro.Prelude.{ℕ, ◌≡◌, ◌∙◌, String, true, List, [], ◌∷◌, Option, some}
use rathole_pro.Prelude.Int.{ℤ}
use rathole_pro.Prelude.Exec.{Err, Result, ok, wrapf}
use rathole_pro.Net.{Conn}
use rathole_pro.Config.{TransportConfig, service_type}
use rathole_pro.Protocol.{Json, Encodes}
use rathole_pro.Transport.Stream.{Stream, stream_wire}
use rathole_pro.Transport.Stream.Writes.{left}
use rathole_pro.Transport.Stream.Messages.{message_sent}
use rathole_pro.Transport.Factory.{TlsClient}
use rathole_pro.Server.Auth.{Pools, auth_response}
use rathole_pro.Server.Auth.Admission.{Joins, HasPool}
use rathole_pro.Server.Run.{control_loop}
use rathole_pro.Client.Meeting.{Meeting, client_hash, server_hash}
use rathole_pro.Client.Session.{run_tcp_session}
use rathole_pro.Client.Session.Returns.{dials_lem, dials, connects}
use rathole_pro.Client.Session.OverStream.{Ends-Connects}
use rathole_pro.Client.Session.NoiseEnds.{
  NoiseEnds, NoiseMeets, server_stream, client_stream, stream_ends, server_upgrades,
  client_upgrades, accepted,
}

module _ {Pool : Type 0} (read_file : String → Result (List ℕ))
    (certs_from_pem : List ℕ → Option Pool) (tls_dial : String → ℤ → TlsClient Pool → Result Conn)
    (dial : String → ℤ → Result Conn) (decode : String → Option (List ℕ))
    (base64 sha1 : List ℕ → List ℕ) (random ahead : ℕ → ℕ) (key_bytes : List ℕ) (json : Json)
    (hash_token : String → String) (m : Meeting json hash_token) {answer : List ℕ}
    (n : NoiseEnds decode m.auth_payload answer) where
  open m use {cc, sc, name, client_svc, server_svc}

  -- What the client's `dialWithTransport` gives.
  abbrev pub dialled : Result Stream × Option Conn
  dialled =
      dials read_file certs_from_pem tls_dial dial decode (ok n.client_random) base64 sha1 random
        ahead key_bytes cc

  -- The server's stream when yamux takes it.
  abbrev pub served_stream : Stream
  served_stream = message_sent (left (server_stream n) n.server_rest) answer

  dialled_lem :
      (t : TransportConfig)
      → NoiseMeets n
      → cc.transport ≡ some t
      → t.kind ≡ "noise"
      → t.noise ≡ some n.client_config
      → connects read_file certs_from_pem tls_dial dial decode
          (ok n.client_random)
          base64
          sha1
          random
          ahead
          key_bytes
          cc
        ≡ ok n.client
      → dialled.0 ≡ ok (client_stream n)
  dialled_lem t h over kind cfg up =
      dials_lem read_file certs_from_pem tls_dial dial decode (ok n.client_random) base64 sha1
        random ahead key_bytes cc n.client up
      ∙ rw over (client_upgrades n base64 sha1 random ahead key_bytes cc.remote_addr t h kind cfg)

  -- A client and a server with transports of the type `noise`, on open connections with room for
  -- what they send, each of which receives what the other end sends, keys and messages, of at most
  -- 65535 bytes; two tokens of the same hash, and a pool for the service: if yamux gives sessions
  -- at both ends, the session of the server joins the pool of the service, and the client's
  -- session passes on the streams of its own.
  pub run_tcp_session-control_loop :
      (yamux_server yamux_client : Stream → Result ℕ) (accepts : ℕ → List ℕ × Err)
      (st ct : TransportConfig) (session client_session : ℕ) (pools : Pools)
      → NoiseMeets n
      → (sc.transport ≡ some st) × (st.kind ≡ "noise") × (st.noise ≡ some n.server_config)
      → (cc.transport ≡ some ct) × (ct.kind ≡ "noise") × (ct.noise ≡ some n.client_config)
      → connects read_file certs_from_pem tls_dial dial decode
          (ok n.client_random)
          base64
          sha1
          random
          ahead
          key_bytes
          cc
        ≡ ok n.client
      → client_hash m ≡ server_hash m
      → Encodes json (auth_response true "OK") answer
      → HasPool name (service_type server_svc) pools
      → yamux_server served_stream ≡ ok session
      → ((s : Stream) → yamux_client s ≡ ok client_session)
      → let after =
          control_loop json hash_token yamux_server decode base64 sha1 sc
            (ok (accepted n random ahead) ∷ [])
            pools in
        let ended =
          run_tcp_session json hash_token yamux_client accepts dialled.0 name client_svc cc in
        Joins name (service_type server_svc) session pools after
        × (ended.streams ≡ (accepts client_session).0)
        × (ended.error ≡ some (wrapf "yamux accept" (accepts client_session).1))
  run_tcp_session-control_loop yamux_server yamux_client accepts st ct session client_session pools
        h (s_over, s_kind, s_cfg) (c_over, c_kind, c_cfg) up same enc has y_s y_c =
      Ends-Connects decode base64 sha1 json hash_token m yamux_server yamux_client accepts
        (stream_ends n h) (accepted n random ahead) dialled.0 session client_session pools
        (dialled_lem ct h c_over c_kind c_cfg up)
        (rw s_over (server_upgrades n base64 sha1 random ahead st h s_kind s_cfg)) same enc has y_s
        y_c

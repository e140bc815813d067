-- ===== src/Runs/Sessions.antt =====
-- A session of a client that is not answered, and one behind the noise transport with its server.
use rathole_pro.Prelude.{
  ℕ, ◌+◌, ◌≤◌, ◌≡◌, refl, String, false, List, [], ◌∷◌, ◌++◌, Option, none, some, replicate, length,
  arith,
}
use rathole_pro.Prelude.Int.{ℤ, pos}
use rathole_pro.Prelude.Exec.{Result, ok, err, eof, wrapf}
use rathole_pro.Net.{Conn}
use rathole_pro.Transport.Stream.{Stream, stream_wire}
use rathole_pro.Transport.Factory.{TlsClient, client_dial}
use rathole_pro.Config.{ClientConfig, ServiceConfig, service_type, get_transport_type}
use rathole_pro.Protocol.{Json, empty_envelope}
use rathole_pro.Client.Session.{run_tcp_session}
use rathole_pro.Client.Session.Returns.{
  Returned, IsAuthenticated, dials, connects, run_tcp_session-Returned,
}
use rathole_pro.Prelude.Words.{put_u32}
use rathole_pro.Protocol.{header}
use rathole_pro.Transport.Xor.{xor_from}
use rathole_pro.Transport.Noise.{clamp_key, scalar_base_mult, scalar_mult, xor_crypt}
use rathole_pro.Server.Auth.Admission.{Joins}
use rathole_pro.Server.Run.{control_loop}
use rathole_pro.Client.Meeting.{Meeting}
use rathole_pro.Client.Handshake.{end_of}
use rathole_pro.Client.Session.NoiseEnds.{NoiseEnds, NoiseMeets, noise_message, accepted}
use rathole_pro.Client.Session.OverNoise.{run_tcp_session-control_loop}
use rathole_pro.Runs.Auth as Auth
use rathole_pro.Runs.Auth.{
  hash, codec, client_config, secret_set, service_known, Encodes_auth, Encodes_ok, pools-HasPool,
}
use rathole_pro.Runs.Clients.{noise, noise_config}
use rathole_pro.Runs.Noise.{decode}
use rathole_pro.Runs.Noise

abbrev plain_service : String → String → ServiceConfig
plain_service kind bind_addr = record {
  kind = kind;
  token = "t";
  bind_addr = bind_addr;
  local_addr = "l:1";
  nodelay = false;
  mux_streams = pos 0;
  max_mux_streams = pos 0;
  retry_interval = pos 0;
}

abbrev json : Json
json = record { marshal = λ env. ok []; unmarshal = λ bytes. ok empty_envelope }

abbrev client : ClientConfig
client = record {
  remote_addr = "s:1";
  default_token = "t";
  heartbeat_timeout = pos 0;
  retry_interval = pos 0;
  mux_connections = pos 0;
  transport = none;
  services = ("web", plain_service "" "") ∷ [];
}

abbrev conn : Conn
conn = record { incoming = []; outgoing = []; room = 0; closed = false }

abbrev dial_tcp : String → ℤ → Result Conn
dial_tcp addr timeout = ok conn

abbrev no_tls : String → ℤ → TlsClient (Unit {0}) → Result Conn
no_tls addr timeout c = err eof

abbrev bare : List ℕ → List ℕ
bare b = b

abbrev dialled : Result Stream × Option Conn
dialled =
    dials (λ path. err eof) (λ pem. none) no_tls dial_tcp (λ text. none) (err eof) bare bare
      (λ i. 0) (λ i. 0) [] client

dial_tcp_opens :
    (c : Conn)
    → connects
        (λ path. err eof)
        (λ pem. none)
        no_tls
        dial_tcp
        (λ text. none)
        (err eof)
        bare
        bare
        (λ i. 0)
        (λ i. 0)
        []
        client
      ≡ ok c
    → c.closed ≡ false
unfolding client_dial get_transport_type
dial_tcp_opens c e = ground arith

run_tcp_session-Returned_example :
    Returned
      (IsAuthenticated
        (λ path. err eof)
        (λ pem. none)
        no_tls
        dial_tcp
        (λ text. none)
        (err eof)
        bare
        bare
        (λ i. 0)
        (λ i. 0)
        []
        json
        (λ t. t)
        (λ s. ok 1)
        "web"
        (plain_service "" "")
        client)
      client.transport
      dialled
      (run_tcp_session json
        (λ t. t)
        (λ s. ok 1)
        (λ s. (2 ∷ [], eof))
        dialled.0
        "web"
        (plain_service "" "")
        client)
run_tcp_session-Returned_example =
    run_tcp_session-Returned (λ path. err eof) (λ pem. none) no_tls dial_tcp (λ text. none)
      (err eof) bare bare (λ i. 0) (λ i. 0) [] json (λ t. t) (λ s. ok 1) "web" (plain_service "" "")
      client (λ s. (2 ∷ [], eof)) dial_tcp_opens

abbrev noise_client : ClientConfig
noise_client = record client_config { transport = some noise }

abbrev noise_meeting : Meeting (codec "") hash
noise_meeting = record {
  cc = noise_client;
  sc = noise_config;
  name = "web";
  client_svc = Auth.service "";
  server_svc = Auth.service "";
  auth_payload = 1 ∷ [];
  encodes_auth = Encodes_auth "";
  client_token = secret_set;
  known = service_known;
  server_token = secret_set;
}

abbrev server_key : List ℕ
server_key = scalar_base_mult (clamp_key (replicate 32 7))

abbrev client_key : List ℕ
client_key = scalar_base_mult (clamp_key (replicate 32 200))

abbrev key : List ℕ
key = scalar_mult (clamp_key (replicate 32 7)) client_key

abbrev noise_ends : NoiseEnds decode (1 ∷ []) (2 ∷ [])
noise_ends = record {
  server = end_of (client_key ++ (noise_message key (1 ∷ []) ++ [])) [] 100;
  client = end_of (server_key ++ (noise_message key (2 ∷ []) ++ 5 ∷ [])) [] 100;
  server_random = replicate 32 7;
  client_random = replicate 32 200;
  server_config = Noise.config;
  client_config = Noise.config;
  server_rest = [];
  client_rest = 5 ∷ [];
  keyed = refl;
  server_draws = refl;
  client_draws = refl;
  server_open = refl;
  client_open = refl;
}

noise_room : (b : ℕ) → 32 + length (noise_message key (b ∷ [])) ≤ 100
unfolding header put_u32 xor_crypt xor_from
noise_room b = omega arith

abbrev noise_meets : NoiseMeets noise_ends
noise_meets = record {
  server_reads = refl;
  client_reads = refl;
  server_room = noise_room 2;
  client_room = noise_room 1;
  ask_fits = (omega arith, omega arith);
  answer_fits = (omega arith, omega arith);
}

abbrev dial_noise : String → ℤ → Result Conn
dial_noise addr timeout = ok noise_ends.client

dial_noise-connects :
    connects
      (λ path. err eof)
      (λ pem. none)
      no_tls
      dial_noise
      decode
      (ok (replicate 32 200))
      bare
      bare
      (λ i. 0)
      (λ i. 0)
      []
      noise_client
    ≡ ok noise_ends.client
unfolding client_dial get_transport_type
dial_noise-connects = refl

run_tcp_session-control_loop_example :
    let after =
      control_loop
        (codec "")
        hash
        (λ s. ok 7)
        decode
        bare
        bare
        noise_config
        (ok (accepted noise_ends (λ i. 0) (λ i. 0)) ∷ [])
        Auth.pools in
    let ended =
      run_tcp_session
        (codec "")
        hash
        (λ s. ok 8)
        (λ s. (2 ∷ 3 ∷ [], eof))
        (dials
          (λ path. err eof)
          (λ pem. none)
          no_tls
          dial_noise
          decode
          (ok (replicate 32 200))
          bare
          bare
          (λ i. 0)
          (λ i. 0)
          []
          noise_client).0
        "web"
        (Auth.service "")
        noise_client in
    Joins "web" (service_type (Auth.service "")) 7 Auth.pools after
    × (ended.streams ≡ 2 ∷ 3 ∷ [])
    × (ended.error ≡ some (wrapf "yamux accept" eof))
run_tcp_session-control_loop_example =
    run_tcp_session-control_loop (λ path. err eof) (λ pem. none) no_tls dial_noise decode bare bare
      (λ i. 0) (λ i. 0) [] (codec "") hash noise_meeting noise_ends (λ s. ok 7) (λ s. ok 8)
      (λ s. (2 ∷ 3 ∷ [], eof)) noise noise 7 8 Auth.pools noise_meets (refl, refl, refl)
      (refl, refl, refl) dial_noise-connects refl (Encodes_ok "") pools-HasPool refl (λ s. refl)

-- ===== src/Runs/Auth.antt =====
-- A client and a server with one service, and a codec of the three messages that they exchange.
mod Handshakes
mod Messages
use rathole_pro.Prelude.{
  ℕ, zero, suc, ◌≤◌, ◌≡◌, ◌≢◌, refl, String, true, false, List, [], ◌∷◌, ◌++◌, length, none, some,
  eq_iff, arith,
}
use rathole_pro.Prelude.Int.{pos}
use rathole_pro.Prelude.Dict.{lookup}
use rathole_pro.Prelude.Exec.{Result, ok, err, eof, errorf, wrapf}
use rathole_pro.Transport.Stream.{Stream}
use rathole_pro.Config.{ServerConfig, ClientConfig, ServiceConfig, get_service_token, service_type}
use rathole_pro.Prelude.Words.{IsBytes, put_u32}
use rathole_pro.Protocol.{
  Json, Encodes, Envelope, header, max_frame_size, read_message, write_message,
}
use rathole_pro.Protocol.Framing.{frame, read_message-write_message, read_message_ok}
use rathole_pro.Protocol.Accepts.{read_message_inv}
use rathole_pro.Server.Pool.{empty_pool}
use rathole_pro.Server.Auth.{
  Pools, Served, bad_token, joined, auth_response, handle_client_conn, make_pools,
}
use rathole_pro.Server.Auth.Admission.{
  Joins, HasPool, Admitted, is_joined, handle_client_conn_admits, handle_client_conn_refuses,
}
use rathole_pro.Server.Auth.Setup.{make_pools-HasPool}
use rathole_pro.Client.{authenticate, auth_envelope}
use rathole_pro.Client.Meeting.{Meeting}

abbrev pub service : String → ServiceConfig
service token = record {
  kind = "tcp";
  token = token;
  bind_addr = "0.0.0.0:80";
  local_addr = "127.0.0.1:80";
  nodelay = true;
  mux_streams = pos 0;
  max_mux_streams = pos 0;
  retry_interval = pos 0;
}

abbrev pub server_config : ServerConfig
server_config = record {
  bind_addr = "0.0.0.0:2333";
  default_token = "secret";
  heartbeat_interval = pos 30;
  transport = none;
  services = ("web", service "") ∷ [];
}

abbrev pub client_config : ClientConfig
client_config = record {
  remote_addr = "example.com:2333";
  default_token = "secret";
  heartbeat_timeout = pos 40;
  retry_interval = pos 1;
  mux_connections = pos 0;
  transport = none;
  services = ("web", service "") ∷ [];
}

abbrev pub hash : String → String
hash token = token

abbrev pub yamux : Stream → Result ℕ
yamux s = ok 7

-- A codec of the three messages that the runs exchange.
abbrev pub encode_message : Envelope → List ℕ
encode_message env = elim env.auth [
  | some a ↦ 1 ∷ []
  | none ↦ elim env.auth_resp [
    | none ↦ []
    | some r ↦ elim r.success [ true ↦ 2 ∷ [] | false ↦ 3 ∷ [] ]
  ]
]

abbrev pub decode_message : String → List ℕ → Result Envelope
decode_message token (suc zero ∷ []) = ok (auth_envelope hash "web" (service token) client_config)
decode_message token (suc (suc zero) ∷ []) = ok (auth_response true "OK")
decode_message token (suc (suc (suc zero)) ∷ []) = ok (auth_response false "bad token")
decode_message token _ = err eof

abbrev pub codec : String → Json
codec token = record { marshal = λ env. ok (encode_message env); unmarshal = decode_message token }

abbrev pub auth_message : String → Envelope
auth_message token = auth_envelope hash "web" (service token) client_config

abbrev pub Encodes_auth : (token : String) → Encodes (codec token) (auth_message token) (1 ∷ [])
Encodes_auth token = record { marshals = refl; unmarshals = refl; fits = omega arith }

abbrev pub Encodes_ok : (token : String) → Encodes (codec token) (auth_response true "OK") (2 ∷ [])
Encodes_ok token = record { marshals = refl; unmarshals = refl; fits = omega arith }

abbrev pub Encodes_bad :
    (token : String) → Encodes (codec token) (auth_response false "bad token") (3 ∷ [])
Encodes_bad token = record { marshals = refl; unmarshals = refl; fits = omega arith }

pub secret_set : get_service_token "" "secret" ≢ ""
unfolding get_service_token
secret_set = ground (arith, eq_iff "secret" "")

pub wrong_set : get_service_token "wrong" "secret" ≢ ""
unfolding get_service_token
wrong_set = ground (arith, eq_iff "wrong" "")

pub service_known : lookup "web" server_config.services ≡ some (service "")
unfolding lookup
service_known = refl

pub tokens_differ : get_service_token "wrong" "secret" ≢ get_service_token "" "secret"
unfolding get_service_token
tokens_differ = ground (arith, eq_iff "wrong" "secret")

abbrev pub meeting_of :
    (token : String) → get_service_token token "secret" ≢ "" → Meeting (codec token) hash
meeting_of token set_ = record {
  cc = client_config;
  sc = server_config;
  name = "web";
  client_svc = service token;
  server_svc = service "";
  auth_payload = 1 ∷ [];
  encodes_auth = Encodes_auth token;
  client_token = set_;
  known = service_known;
  server_token = secret_set;
}

abbrev pub pools : Pools
pools = record { tcp = ("web", empty_pool) ∷ []; udp = [] }

pub pools-HasPool : HasPool "web" (service_type (service "")) pools
unfolding lookup service_type
pools-HasPool = refl

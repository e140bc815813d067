-- ===== src/Server/Auth/Admission.antt =====
-- Who gets a session into a pool, and who does not.
use mathlib.Core.Path.{subst}
use rathole_pro.Prelude.{
  sym, ap, ◌∙◌, ℕ, ◌≡◌, ◌≢◌, String, Bool, true, false, some, str_eq, eq_iff, if◌then◌else◌, arith,
  Option-cases, Bool-cases, inl, inr,
}
use rathole_pro.Prelude.Dict.{lookup, insert}
use rathole_pro.Prelude.Exec.{Result, Result-cases, ok}
use rathole_pro.Net.Wire.{Wire}
use rathole_pro.Config.{ServerConfig, ServiceConfig, get_service_token, service_type, is_some}
use rathole_pro.Protocol.{Json, Envelope, AuthRequest, read_message, write_message}
use rathole_pro.Server.Pool.{SessionPool, UdpPool, add, udp_add}
use rathole_pro.Server.Auth.{
  Pools, Outcome, joined, auth_response, join_pool, accept_client, check_auth, handle_client_conn,
}

abbrev pub is_joined : Outcome → Bool
is_joined (joined s) = true
is_joined _ = false

-- The pools with `session` added to the one of the service, which has to be there.
pub data Joins (name kind : String) (session : ℕ) (before after : Pools) : Type 0 where
  udp_session :
      (pool : UdpPool)
      → kind ≡ "udp"
      → lookup name before.udp ≡ some pool
      → after ≡ record before { udp = insert name (udp_add pool session) before.udp }
      → Joins name kind session before after
  tcp_session :
      (pool : SessionPool)
      → kind ≢ "udp"
      → lookup name before.tcp ≡ some pool
      → after ≡ record before { tcp = insert name (add pool session) before.tcp }
      → Joins name kind session before after

-- The service's pool is there.
abbrev pub HasPool : String → String → Pools → Type 0
HasPool name kind pools =
    (if str_eq kind "udp" then is_some (lookup name pools.udp) else is_some (lookup name pools.tcp))
    ≡ true

-- What a client has shown whose session is in a pool.
pub record Admitted {S : Type 0} ⦃w : Wire S⦄ (json : Json) (hash_token : String → String)
    (sc : ServerConfig) (conn : S) (session : ℕ) (before after : Pools) : Type 0 where
  pub env : Envelope
  pub auth : AuthRequest
  pub svc : ServiceConfig
  pub reads : (read_message json conn).0 ≡ ok env
  pub is_auth : env.auth ≡ some auth
  pub known : lookup auth.service_name sc.services ≡ some svc
  pub has_token : get_service_token svc.token sc.default_token ≢ ""
  pub proves : auth.token_hash ≡ hash_token (get_service_token svc.token sc.default_token)
  pub joins : Joins auth.service_name (service_type svc) session before after

module _ {S : Type 0} ⦃w : Wire S⦄ (json : Json) (hash_token : String → String)
    (yamux_server : S → Result ℕ) where
  pub join_pool-Joins :
      (name kind : String) (session s : ℕ) (conn : S) (pools : Pools)
      → (join_pool json hash_token yamux_server name kind session conn pools).outcome ≡ joined s
      → Joins name kind s pools
          (join_pool json hash_token yamux_server name kind session conn pools).pools
  unfolding join_pool
  join_pool-Joins name kind session s conn pools e = elim (Bool-cases (str_eq kind "udp")) [
    | inl is_udp ↦ elim (Option-cases (lookup name pools.udp)) [
      | inl missing ↦ ground arith
      | inr (pool, there) ↦ udp_session pool ((eq_iff kind "udp").0 is_udp) there (ground arith)
    ]
    | inr not_udp ↦ elim (Option-cases (lookup name pools.tcp)) [
      | inl missing ↦ ground arith
      | inr (pool, there) ↦
          tcp_session pool (ground (arith, eq_iff kind "udp")) there (ground arith)
    ]
  ]

  pub join_pool_ok :
      (name kind : String) (session : ℕ) (conn : S) (pools : Pools)
      → HasPool name kind pools
      → let served = join_pool json hash_token yamux_server name kind session conn pools in
        (served.outcome ≡ joined session) × (served.conn ≡ conn)
  unfolding join_pool
  join_pool_ok name kind session conn pools has = ground arith

  accept_client-Joins :
      (name : String) (svc : ServiceConfig) (s : ℕ) (conn : S) (pools : Pools)
      → (accept_client json hash_token yamux_server name svc conn pools).outcome ≡ joined s
      → Joins name
          (service_type svc)
          s
          pools
          (accept_client json hash_token yamux_server name svc conn pools).pools
  unfolding accept_client
  accept_client-Joins name svc s conn pools e =
      elim (Result-cases (write_message json (auth_response true "OK") conn).0) [
        | inr (x, failed) ↦ ground arith
        | inl (_, sent) ↦
            elim (Result-cases
              (yamux_server (write_message json (auth_response true "OK") conn).1)) [
                | inr (x, failed) ↦ ground arith
                | inl (session, up) ↦
                    rw (sent, accept_client, up)
                      (join_pool-Joins name (service_type svc) session s _ pools (ground arith))
              ]
      ]

  -- Past the checks.
  handle-accept :
      (sc : ServerConfig) (conn : S) (pools : Pools) (s : ℕ) (env : Envelope) (auth : AuthRequest)
      (svc : ServiceConfig)
      → (read_message json conn).0 ≡ ok env
      → env.auth ≡ some auth
      → lookup auth.service_name sc.services ≡ some svc
      → (handle_client_conn json hash_token yamux_server sc conn pools).outcome ≡ joined s
      → handle_client_conn json hash_token yamux_server sc conn pools
        ≡ accept_client json hash_token yamux_server auth.service_name svc
            (read_message json conn).1
            pools
  unfolding handle_client_conn check_auth
  handle-accept sc conn pools s env auth svc got is_auth known e = ground arith

  pub handle_client_conn_admits :
      (sc : ServerConfig) (conn : S) (pools : Pools) (s : ℕ)
      → let served = handle_client_conn json hash_token yamux_server sc conn pools in
        served.outcome ≡ joined s → Admitted json hash_token sc conn s pools served.pools
  unfolding handle_client_conn check_auth
  handle_client_conn_admits sc conn pools s e = elim (Result-cases (read_message json conn).0) [
    | inr (x, failed) ↦ ground arith
    | inl (env, got) ↦ elim (Option-cases env.auth) [
      | inl missing ↦ ground arith
      | inr (auth, is_auth) ↦ elim (Option-cases (lookup auth.service_name sc.services)) [
        | inl unknown ↦ ground arith
        | inr (svc, known) ↦
            let token = get_service_token svc.token sc.default_token in
            let same = handle-accept sc conn pools s env auth svc got is_auth known e in
            record {
              env = env;
              auth = auth;
              svc = svc;
              reads = got;
              is_auth = is_auth;
              known = known;
              has_token = ground (arith, eq_iff token "");
              proves = ground (arith, eq_iff auth.token_hash (hash_token token));
              joins =
                  subst (λ v. Joins auth.service_name (service_type svc) s pools v.pools) (sym same)
                    (accept_client-Joins auth.service_name svc s (read_message json conn).1 pools
                      (sym (ap (λ v. v.outcome) same) ∙ e));
            }
      ]
    ]
  ]

  -- The session of an admitted client is the one that yamux gave on its connection.
  join_pool_session :
      (name kind : String) (session s : ℕ) (conn : S) (pools : Pools)
      → (join_pool json hash_token yamux_server name kind session conn pools).outcome ≡ joined s
      → s ≡ session
  unfolding join_pool
  join_pool_session name kind session s conn pools e = ground arith

  -- What `handleClientConn` hands to yamux: the connection after the answer.
  abbrev pub answered : S → S
  answered conn = (write_message json (auth_response true "OK") (read_message json conn).1).1

  accept_client_session :
      (name : String) (svc : ServiceConfig) (s : ℕ) (conn : S) (pools : Pools)
      → (accept_client json hash_token yamux_server name svc conn pools).outcome ≡ joined s
      → yamux_server (write_message json (auth_response true "OK") conn).1 ≡ ok s
  unfolding accept_client
  accept_client_session name svc s conn pools e =
      let w = write_message json (auth_response true "OK") conn in
      elim (Result-cases w.0) [
        | inr (x, failed) ↦ ground arith
        | inl (_, sent) ↦ elim (Result-cases (yamux_server w.1)) [
          | inr (x, failed) ↦ ground arith
          | inl (session, up) ↦
              up
              ∙ ap ok (
                  sym
                    (join_pool_session name (service_type svc) session s w.1 pools (ground arith)))
        ]
      ]

  pub handle_client_conn_session :
      (sc : ServerConfig) (conn : S) (pools : Pools) (s : ℕ)
      → (handle_client_conn json hash_token yamux_server sc conn pools).outcome ≡ joined s
      → yamux_server (answered conn) ≡ ok s
  handle_client_conn_session sc conn pools s e =
      let a = handle_client_conn_admits sc conn pools s e in
      accept_client_session a.auth.service_name a.svc s (read_message json conn).1 pools (
        sym (
          ap (λ v. v.outcome)
            (handle-accept sc conn pools s a.env a.auth a.svc a.reads a.is_auth a.known e))
        ∙ e)

  pub join_pool_refuses :
      (name kind : String) (session : ℕ) (conn : S) (pools : Pools)
      → is_joined (join_pool json hash_token yamux_server name kind session conn pools).outcome
        ≡ false
      → (join_pool json hash_token yamux_server name kind session conn pools).pools ≡ pools
  unfolding join_pool
  join_pool_refuses name kind session conn pools e = ground arith

  -- Where `handleClientConn` ends without a session in a pool, no pool has changed.
  pub handle_client_conn_refuses :
      (sc : ServerConfig) (conn : S) (pools : Pools)
      → let served = handle_client_conn json hash_token yamux_server sc conn pools in
        is_joined served.outcome ≡ false → served.pools ≡ pools
  unfolding handle_client_conn check_auth accept_client
  handle_client_conn_refuses sc conn pools e = grind (arith, join_pool_refuses)

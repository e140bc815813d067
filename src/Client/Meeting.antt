-- ===== src/Client/Meeting.antt =====
-- The client's `authenticate` and the server's `handleClientConn` over any connection that passes
-- their messages on.
use rathole_pro.Prelude.{ℕ, ◌≡◌, ◌≢◌, ◌∙◌, String, Bool, true, false, List, [], some, eq_iff, arith}
use rathole_pro.Prelude.Dict.{lookup}
use rathole_pro.Prelude.Exec.{Result, ok, err, errorf, wrapf}
use rathole_pro.Net.Wire.{Wire, close}
use rathole_pro.Config.{ServerConfig, ClientConfig, ServiceConfig, get_service_token, service_type}
use rathole_pro.Protocol.{Json, Envelope, Encodes, write_message, read_message}
use rathole_pro.Server.Auth.{
  Pools, bad_token, joined, join_pool, auth_response, send_auth_fail, accept_client, check_auth,
  handle_client_conn,
}
use rathole_pro.Server.Auth.Admission.{Joins, HasPool, join_pool-Joins, join_pool_ok}
use rathole_pro.Client.{authenticate, auth_request, auth_envelope}

-- A client and a server that both know the service, each with a token that is not empty, and the
-- payload of the client's message, which the codec reads back.
pub record Meeting (json : Json) (hash_token : String → String) : Type 0 where
  pub cc : ClientConfig
  pub sc : ServerConfig
  pub name : String
  pub client_svc : ServiceConfig
  pub server_svc : ServiceConfig
  pub auth_payload : List ℕ
  pub encodes_auth : Encodes json (auth_envelope hash_token name client_svc cc) auth_payload
  pub client_token : get_service_token client_svc.token cc.default_token ≢ ""
  pub known : lookup name sc.services ≡ some server_svc
  pub server_token : get_service_token server_svc.token sc.default_token ≢ ""

module _ {json : Json} {hash_token : String → String} (m : Meeting json hash_token) where
  abbrev pub client_hash : String
  client_hash = hash_token (get_service_token m.client_svc.token m.cc.default_token)

  abbrev pub server_hash : String
  server_hash = hash_token (get_service_token m.server_svc.token m.sc.default_token)

  abbrev pub auth_message : Envelope
  auth_message = auth_envelope hash_token m.name m.client_svc m.cc

-- The client sends its message and gets this answer; the server gets the message and sends it.
pub record Exchanged {C S : Type 0} ⦃wc : Wire C⦄ ⦃ws : Wire S⦄ {json : Json}
    {hash_token : String → String} (m : Meeting json hash_token) (success : Bool) (message : String)
    (c c1 c2 : C) (s s1 s2 : S) : Type 0 where
  pub client_sends : write_message json (auth_message m) c ≡ (ok tt, c1)
  pub client_gets : read_message json c1 ≡ (ok (auth_response success message), c2)
  pub server_gets : read_message json s ≡ (ok (auth_message m), s1)
  pub server_sends : write_message json (auth_response success message) s1 ≡ (ok tt, s2)

module _ {C S : Type 0} ⦃wc : Wire C⦄ ⦃ws : Wire S⦄ (json : Json) (hash_token : String → String)
    (yamux_server : S → Result ℕ) (m : Meeting json hash_token) where
  open m use {cc, sc, name, client_svc, server_svc}

  -- The client's run.
  authenticate_lem :
      (success : Bool) (message : String) (c c1 c2 : C) (s s1 s2 : S)
      → Exchanged m success message c c1 c2 s s1 s2
      → authenticate json hash_token name client_svc cc c
        ≡ (elim success [ true ↦ ok tt | false ↦ err (wrapf "auth failed" (errorf message)) ], c2)
  unfolding authenticate
  authenticate_lem success message c c1 c2 s s1 s2 x = ground (
    arith,
    eq_iff (get_service_token client_svc.token cc.default_token) "",
    m.client_token,
    x.client_sends,
    x.client_gets,
  )

  -- The server's run on the client's message, while the token is checked.
  handle_lem :
      (success : Bool) (message : String) (c c1 c2 : C) (s s1 s2 : S) (pools : Pools)
      → Exchanged m success message c c1 c2 s s1 s2
      → handle_client_conn json hash_token yamux_server sc s pools
        ≡ check_auth json hash_token yamux_server sc
            (auth_request hash_token name client_svc cc)
            s1
            pools
  unfolding handle_client_conn
  handle_lem success message c c1 c2 s s1 s2 pools x = ground (arith, x.server_gets)

  -- Two tokens whose hashes differ.
  pub rejects_lem :
      (c c1 c2 : C) (s s1 s2 : S) (pools : Pools)
      → client_hash m ≢ server_hash m
      → Exchanged m false "bad token" c c1 c2 s s1 s2
      → (handle_client_conn json hash_token yamux_server sc s pools ≡ record {
        outcome = bad_token;
        conn = (close s2).1;
        pools = pools;
        closed_sessions = [];
      })
        × (authenticate json hash_token name client_svc cc c
            ≡ (err (wrapf "auth failed" (errorf "bad token")), c2))
  unfolding check_auth send_auth_fail
  rejects_lem c c1 c2 s s1 s2 pools differ x = (
    handle_lem false "bad token" c c1 c2 s s1 s2 pools x
        ∙ ground (
          arith,
          m.known,
          m.server_token,
          eq_iff (get_service_token server_svc.token sc.default_token) "",
          eq_iff (client_hash m) (server_hash m),
          x.server_sends,
        ),
    authenticate_lem false "bad token" c c1 c2 s s1 s2 x,
  )

  -- Two tokens of the same hash, and a pool for the service.
  pub accepts_lem :
      (c c1 c2 : C) (s s1 s2 : S) (session : ℕ) (pools : Pools)
      → client_hash m ≡ server_hash m
      → HasPool name (service_type server_svc) pools
      → yamux_server s2 ≡ ok session
      → Exchanged m true "OK" c c1 c2 s s1 s2
      → let served = handle_client_conn json hash_token yamux_server sc s pools in
        (served.outcome ≡ joined session)
        × Joins name (service_type server_svc) session pools served.pools
        × (served.conn ≡ s2)
        × (authenticate json hash_token name client_svc cc c ≡ (ok tt, c2))
  unfolding check_auth accept_client
  accepts_lem c c1 c2 s s1 s2 session pools same has up x =
      let kind = service_type server_svc in
      let run : handle_client_conn json hash_token yamux_server sc s pools
          ≡ join_pool json hash_token yamux_server name kind session s2 pools =
        handle_lem true "OK" c c1 c2 s s1 s2 pools x
        ∙ ground (
          arith,
          m.known,
          m.server_token,
          eq_iff (get_service_token server_svc.token sc.default_token) "",
          eq_iff (client_hash m) (server_hash m),
          x.server_sends,
        ) in
      let (o, k) = join_pool_ok json hash_token yamux_server name kind session s2 pools has in
      rw run (
        o,
        join_pool-Joins json hash_token yamux_server name kind session session s2 pools o,
        k,
        authenticate_lem true "OK" c c1 c2 s s1 s2 x,
      )

-- ===== src/Server/Run/Clients.antt =====
-- go-core/server/server.go: whose sessions are in a pool after any number of clients.
use rathole_pro.Prelude.{
  ℕ, ◌≡◌, refl, sym, ◌∙◌, arith, String, false, List, [], ◌∷◌, ◌++◌, append_assoc, append-nil, some,
  Option, str_eq, eq_iff, Bool-cases, ◌⊎◌, inl, inr,
}
use rathole_pro.Prelude.Dict.{lookup, lookup-insert}
use rathole_pro.Prelude.Exec.{Result, ok, err}
use rathole_pro.Transport.Stream.{Stream, stream_wire}
use rathole_pro.Config.{ServerConfig, service_type}
use rathole_pro.Protocol.{Json}
use rathole_pro.Server.Pool.{SessionPool, add}
use rathole_pro.Server.Auth.{
  Pools, Outcome, joined, read_auth, expected_auth, unknown_service, no_token, bad_token, no_pool,
  write_response, yamux_error, handle_client_conn,
}
use rathole_pro.Server.Auth.Admission.{
  Joins, udp_session, tcp_session, Admitted, is_joined, handle_client_conn_admits,
  handle_client_conn_refuses, handle_client_conn_session, answered,
}
use rathole_pro.Server.Run.{Accepted, upgraded, admit, control_loop}

Outcome-cases : (o : Outcome) → ((s : ℕ) × (o ≡ joined s)) ⊎ (is_joined o ≡ false)
Outcome-cases (joined s) = inl (s, refl)
Outcome-cases (read_auth e) = inr refl
Outcome-cases expected_auth = inr refl
Outcome-cases unknown_service = inr refl
Outcome-cases no_token = inr refl
Outcome-cases bad_token = inr refl
Outcome-cases no_pool = inr refl
Outcome-cases (write_response e) = inr refl
Outcome-cases (yamux_error e) = inr refl

-- What one admission does to the TCP pool of a service.
tcp_after :
    (name other kind : String) (s : ℕ) (before after : Pools) (p : SessionPool)
    → lookup name before.tcp ≡ some p
    → Joins other kind s before after
    → (lookup name after.tcp ≡ some p) ⊎ ((other ≡ name) × (lookup name after.tcp ≡ some (add p s)))
tcp_after name other kind s before after p there (udp_session pool is_udp found same) =
    inl (ground (arith, same, there))
tcp_after name other kind s before after p there (tcp_session pool not_udp found same) =
    elim (Bool-cases (str_eq other name)) [
      | inl hit ↦ inr (
        (eq_iff other name).0 hit,
        ground (
          arith,
          same,
          there,
          found,
          (eq_iff other name).0 hit,
          lookup-insert other name (add pool s) before.tcp,
        ),
      )
      | inr miss ↦
          inl (ground (arith, same, there, lookup-insert other name (add pool s) before.tcp))
    ]

module _ (json : Json) (hash_token : String → String) (yamux_server : Stream → Result ℕ)
    (decode : String → Option (List ℕ)) (base64 sha1 : List ℕ → List ℕ) (sc : ServerConfig) where
  -- What one connection leaves of the pools, and what many do.
  abbrev step : Result Accepted → Pools → Pools
  step (err e) pools = pools
  step (ok a) pools =
      admit json hash_token yamux_server decode base64 sha1 sc
        (upgraded json hash_token yamux_server decode base64 sha1 sc a) pools

  abbrev end : List (Result Accepted) → Pools → Pools
  end conns pools = control_loop json hash_token yamux_server decode base64 sha1 sc conns pools

  -- The connection got through its upgrade, has shown the token of the service on the stream that
  -- came of it, and yamux gave this session on that stream, which is what it adds to the pools.
  pub record IsProven (name : String) (a : Accepted) (pools : Pools) (s : ℕ) : Type 0 where
    pub stream : Stream
    pub upgrades : upgraded json hash_token yamux_server decode base64 sha1 sc a ≡ ok stream
    pub admitted : Admitted json hash_token sc stream s pools (step (ok a) pools)
    pub is_service : admitted.auth.service_name ≡ name
    pub own_session : yamux_server (answered json hash_token yamux_server stream) ≡ ok s

  -- The sessions that the connections add to the TCP pool of a service, in their order: each
  -- connection adds one, which it has proven, or leaves the pool as it is.
  pub data Gained (name : String) : List (Result Accepted) → Pools → List ℕ → Type 0 where
    no_more : {pools : Pools} → Gained name [] pools []
    passes :
        {r : Result Accepted} {conns : List (Result Accepted)} {pools : Pools} {new : List ℕ}
        → lookup name (step r pools).tcp ≡ lookup name pools.tcp
        → Gained name conns (step r pools) new
        → Gained name (r ∷ conns) pools new
    adds :
        {a : Accepted} {conns : List (Result Accepted)} {pools : Pools} {new : List ℕ}
        → (s : ℕ) → IsProven name a pools s
        → Gained name conns (step (ok a) pools) new
        → Gained name (ok a ∷ conns) pools (s ∷ new)

  -- What the pool of a service is after the clients.
  abbrev pub HasProven : String → List (Result Accepted) → SessionPool → Pools → Pools → Type 0
  HasProven name conns p before after =
      (q : SessionPool) × (new : List ℕ) × (lookup name after.tcp ≡ some q)
      × (q.sessions ≡ p.sessions ++ new)
      × Gained name conns before new

  HasProven-passes :
      (name : String) (r : Result Accepted) (rest : List (Result Accepted)) (p : SessionPool)
      (before after : Pools)
      → lookup name (step r before).tcp ≡ lookup name before.tcp
      → HasProven name rest p (step r before) after
      → HasProven name (r ∷ rest) p before after
  HasProven-passes name r rest p before after same (q, new, found, grown, gained) =
      (q, new, found, grown, passes same gained)

  HasProven-adds :
      (name : String) (rest : List (Result Accepted)) (a : Accepted) (p : SessionPool) (s : ℕ)
      (before after : Pools)
      → IsProven name a before s
      → HasProven name rest (add p s) (step (ok a) before) after
      → HasProven name (ok a ∷ rest) p before after
  unfolding add
  HasProven-adds name rest a p s before after first (q, new, found, grown, gained) =
      (q, s ∷ new, found, grown ∙ append_assoc p.sessions (s ∷ []) new, adds s first gained)

  -- One connection: the pool of the service is as it was, or has a proven session more.
  admit_cases :
      (name : String) (a : Accepted) (pools : Pools) (p : SessionPool) (r : Result Stream)
      → upgraded json hash_token yamux_server decode base64 sha1 sc a ≡ r
      → lookup name pools.tcp ≡ some p
      → (lookup name (step (ok a) pools).tcp ≡ some p)
        ⊎ ((s : ℕ) × (lookup name (step (ok a) pools).tcp ≡ some (add p s))
            × IsProven name a pools s)
  unfolding admit
  admit_cases name a pools p (err e) up there = inl (rw up there)
  admit_cases name a pools p (ok stream) up there =
      let served = handle_client_conn json hash_token yamux_server sc stream pools in
      let same : step (ok a) pools ≡ served.pools = rw up refl in
      elim (Outcome-cases served.outcome) [
        | inr refused ↦ inl (
            rw same (
              rw (handle_client_conn_refuses json hash_token yamux_server sc stream pools refused)
                there))
        | inl (s, joins) ↦
            let ad =
              handle_client_conn_admits json hash_token yamux_server sc stream pools s joins in
            elim (tcp_after name ad.auth.service_name (service_type ad.svc) s pools served.pools p
              there ad.joins) [
                | inl kept ↦ inl (rw same kept)
                | inr (here, grown) ↦ inr (
                  s,
                  rw same grown,
                  record {
                    stream = stream;
                    upgrades = up;
                    admitted = rw same ad;
                    is_service = here;
                    own_session =
                        handle_client_conn_session json hash_token yamux_server sc stream pools s
                          joins;
                  },
                )
              ]
      ]

  -- Whatever connections come to a server, and in whatever order they come to the pools, the TCP
  -- pool of a service holds, behind the sessions that it had, at most one session of each of the
  -- connections, in their order and nothing else: the session that yamux gave on a connection that
  -- got through the upgrade of the transport, and whose first message on the stream was an `Auth`
  -- message for this service with the hash of its token, which is not empty.
  pub control_loop-HasProven :
      (name : String) (conns : List (Result Accepted)) (pools : Pools) (p : SessionPool)
      → lookup name pools.tcp ≡ some p
      → HasProven name conns p pools
          (control_loop json hash_token yamux_server decode base64 sha1 sc conns pools)
  unfolding control_loop
  control_loop-HasProven name [] pools p there =
      (p, [], there, sym (append-nil p.sessions), no_more)
  control_loop-HasProven name (err e ∷ rest) pools p there =
      HasProven-passes name (err e) rest p pools (end rest pools) refl
        (control_loop-HasProven name rest pools p there)
  control_loop-HasProven name (ok a ∷ rest) pools p there =
      let next = step (ok a) pools in
      elim (admit_cases name a pools p
        (upgraded json hash_token yamux_server decode base64 sha1 sc a) refl there) [
          | inl same ↦
              HasProven-passes name (ok a) rest p pools (end rest next) (same ∙ sym there)
                (control_loop-HasProven name rest next p same)
          | inr (s, grown, first) ↦
              HasProven-adds name rest a p s pools (end rest next) first
                (control_loop-HasProven name rest next (add p s) grown)
        ]

-- ===== src/Server/Run/Listeners.antt =====
-- go-core/server/server.go: what `Run` starts before its accept loop.
use rathole_pro.Prelude.{
  ◌≡◌, refl, ◌∙◌, arith, String, List, [], ◌∷◌, ◌++◌, append_assoc, append-nil, some, All, str_eq,
  eq_iff, if◌then◌else◌, Bool-cases, inl, inr,
}
use rathole_pro.Prelude.Dict.{Dict}
use rathole_pro.Prelude.Exec.{Result, Result-cases, ok}
use rathole_pro.Config.{Config, ServerConfig, ServiceConfig, service_type}
use rathole_pro.Server.Auth.{Pools, make_pools, with_pool}
use rathole_pro.Server.Auth.Admission.{HasPool}
use rathole_pro.Server.Auth.Setup.{with_pool-HasPool, make_pools-keeps}
use rathole_pro.Server.Run.{Started, udp_server, visitors, start_service, start_services, start}

-- The services with an address, each with the server of its type.
abbrev server_of : String → ServiceConfig → Started
server_of name svc =
    if str_eq (service_type svc) "udp"
    then udp_server name svc.bind_addr
    else visitors name svc.bind_addr

unfoldable pub wanted : Dict ServiceConfig → List Started
wanted [] = []
wanted ((name, svc) ∷ rest) =
    let more = wanted rest in if str_eq svc.bind_addr "" then more else server_of name svc ∷ more

-- The pool that a started goroutine uses is there.
abbrev pub IsBacked : Pools → Started → Type 0
IsBacked pools (udp_server name addr) = HasPool name "udp" pools
IsBacked pools (visitors name addr) = HasPool name "tcp" pools

server_of-IsBacked :
    (name : String) (svc : ServiceConfig) (pools : Pools)
    → HasPool name (service_type svc) pools
    → IsBacked pools (server_of name svc)
server_of-IsBacked name svc pools h = elim (Bool-cases (str_eq (service_type svc) "udp")) [
  | inl is_udp ↦ rw is_udp (ground (arith))
  | inr is_tcp ↦ rw is_tcp (ground (arith))
]

wanted-IsBacked :
    (services : Dict ServiceConfig) (pools : Pools)
    → All (IsBacked (make_pools services pools)) (wanted services)
unfolding wanted make_pools
wanted-IsBacked [] pools = tt
wanted-IsBacked ((name, svc) ∷ rest) pools =
    let more = wanted-IsBacked rest (with_pool name svc pools) in
    let has =
      make_pools-keeps name (service_type svc) rest (with_pool name svc pools)
        (with_pool-HasPool name name svc pools ((eq_iff name name).1 refl)) in
    elim (Bool-cases (str_eq svc.bind_addr "")) [
      | inl empty ↦ rw empty more
      | inr given ↦
          rw given
            (server_of-IsBacked name svc (make_pools rest (with_pool name svc pools)) has, more)
    ]

module _ (listen : String → Result (Unit {0})) where
  service_ok :
      (name : String) (svc : ServiceConfig) (rest : Dict ServiceConfig) (started : List Started)
      → (start_service listen name svc started).0 ≡ ok tt
      → (start_service listen name svc started).1 ++ wanted rest
        ≡ started ++ wanted ((name, svc) ∷ rest)
  unfolding start_service wanted
  service_ok name svc rest started h =
      ground (arith, append_assoc started (server_of name svc ∷ []) (wanted rest))

  start_services_ok :
      (services : Dict ServiceConfig) (started after : List Started)
      → start_services listen services started ≡ (ok tt, after)
      → after ≡ started ++ wanted services
  unfolding start_services wanted
  start_services_ok [] started after h = ground (arith, append-nil started)
  start_services_ok ((name, svc) ∷ rest) started after h =
      elim (Result-cases (start_service listen name svc started).0) [
        | inr (e, failed) ↦ ground (arith)
        | inl (u, went) ↦
            start_services_ok rest (start_service listen name svc started).1 after (ground (arith))
            ∙ service_ok name svc rest started went
      ]

start_inv :
    (listen : String → Result (Unit {0})) (listen_control : Result (Unit {0})) (cfg : Config)
    (sc : ServerConfig) (pools : Pools) (started : List Started)
    → cfg.server ≡ some sc
    → start listen listen_control cfg [] ≡ (ok pools, started)
    → (start_services listen sc.services [] ≡ (ok tt, started))
      × (pools ≡ make_pools sc.services (record { tcp = []; udp = [] }))
unfolding start
start_inv listen listen_control cfg sc pools started has h =
    elim (Result-cases (start_services listen sc.services []).0) [
      | inr (e, failed) ↦ ground (arith)
      | inl (u, went) ↦ (ground (arith), ground (arith))
    ]

-- If `Run`, with a `[server]` section, comes to its accept loop, it has started one goroutine for
-- each service with an address, in the order of the services, for datagrams when the type is `udp`
-- and for visitors otherwise, and no other, and the pool that each of them uses is one that `Run`
-- has made.
pub start-wanted :
    (listen : String → Result (Unit {0})) (listen_control : Result (Unit {0})) (cfg : Config)
    (sc : ServerConfig) (pools : Pools) (started : List Started)
    → cfg.server ≡ some sc
    → start listen listen_control cfg [] ≡ (ok pools, started)
    → (started ≡ wanted sc.services) × All (IsBacked pools) started
start-wanted listen listen_control cfg sc pools started has h =
    let (went, made) = start_inv listen listen_control cfg sc pools started has h in
    let all = start_services_ok listen sc.services [] started went in
    (all, rw made (rw all (wanted-IsBacked sc.services (record { tcp = []; udp = [] }))))

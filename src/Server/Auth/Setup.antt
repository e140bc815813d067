-- ===== src/Server/Auth/Setup.antt =====
-- The pools that `Run` makes before it serves.
use mathlib.Core.Path.{subst}
use rathole_pro.Prelude.{Bool-cases, inl, inr, ◌≡◌, String, true, [], ◌∷◌, some, str_eq, arith}
use rathole_pro.Prelude.Dict.{Dict, lookup, lookup-insert}
use rathole_pro.Config.{ServiceConfig, service_type}
use rathole_pro.Server.Pool.{empty_pool, empty_udp_pool}
use rathole_pro.Server.Auth.{Pools, make_pools, with_pool}
use rathole_pro.Server.Auth.Admission.{HasPool}

pub HasPool-with_pool :
    (name kind other : String) (svc : ServiceConfig) (pools : Pools)
    → HasPool name kind pools
    → HasPool name kind (with_pool other svc pools)
unfolding with_pool
HasPool-with_pool name kind other svc pools h = ground (
  arith,
  lookup-insert other name empty_pool pools.tcp,
  lookup-insert other name empty_udp_pool pools.udp,
)

pub with_pool-HasPool :
    (name other : String) (svc : ServiceConfig) (pools : Pools)
    → str_eq other name ≡ true
    → HasPool name (service_type svc) (with_pool other svc pools)
unfolding with_pool
with_pool-HasPool name other svc pools same = ground (
  arith,
  lookup-insert other name empty_pool pools.tcp,
  lookup-insert other name empty_udp_pool pools.udp,
)

pub make_pools-keeps :
    (name kind : String) (services : Dict ServiceConfig) (pools : Pools)
    → HasPool name kind pools
    → HasPool name kind (make_pools services pools)
unfolding make_pools
make_pools-keeps name kind [] pools h = h
make_pools-keeps name kind ((other, svc) ∷ rest) pools h =
    make_pools-keeps name kind rest (with_pool other svc pools)
      (HasPool-with_pool name kind other svc pools h)

-- Every service of the configuration has a pool of its kind after the loop that makes them.
pub make_pools-HasPool :
    (name : String) (services : Dict ServiceConfig) (pools : Pools) {svc : ServiceConfig}
    → lookup name services ≡ some svc
    → HasPool name (service_type svc) (make_pools services pools)
unfolding make_pools lookup
make_pools-HasPool name [] pools e = cc
make_pools-HasPool name ((other, svc) ∷ rest) pools {svc = found} e =
    elim (Bool-cases (str_eq other name)) [
      | inl same ↦
          let first : svc ≡ found = ground arith in
          subst (λ v. HasPool name (service_type v) (make_pools rest (with_pool other svc pools)))
            first
            (make_pools-keeps name (service_type svc) rest (with_pool other svc pools)
              (with_pool-HasPool name other svc pools same))
      | inr later ↦ make_pools-HasPool name rest (with_pool other svc pools) (ground arith)
    ]

-- ===== src/Runs/Balance.antt =====
-- A load balancer over three backends.
use rathole_pro.Prelude.{ℕ, ◌^◌, ◌≡◌, refl, [], ◌∷◌, some, get_elem?, arith}
use rathole_pro.Prelude.Int.{pos}
use rathole_pro.LoadBalancer.{
  LoadBalancer, Strategy, round_robin, least_conn, returns, panics, Chosen, choose, backend_at,
  least_from, least_index, next,
}
use rathole_pro.LoadBalancer.Turns.{next_panics}
use rathole_pro.LoadBalancer.Choice.{IsLeast, next-IsLeast}

abbrev balancer : Strategy → ℕ → LoadBalancer
balancer strategy index = record {
  backends = "a:1" ∷ "b:1" ∷ "c:1" ∷ [];
  strategy = strategy;
  index = index;
  connections = pos 2 ∷ pos 1 ∷ pos 1 ∷ [];
}

next_panics_example : (next (balancer round_robin (2 ^ 63)) 0).0 ≡ panics
next_panics_example =
    next_panics (balancer round_robin (2 ^ 63)) 0 refl (omega arith) (omega arith) (omega arith)
      (omega arith)

next-IsLeast_example :
    (c : Chosen) × ((next (balancer least_conn 0) 0).0 ≡ returns c)
    × (get_elem? ("a:1" ∷ "b:1" ∷ "c:1" ∷ []) c.idx ≡ some c.addr)
    × IsLeast (pos 2 ∷ pos 1 ∷ pos 1 ∷ []) c.idx
next-IsLeast_example = next-IsLeast (balancer least_conn 0) 0 refl (omega arith) refl

abbrev second : Chosen
second = record { addr = "b:1"; idx = 1 }

next-second : (next (balancer least_conn 0) 0).0 ≡ returns second
unfolding next choose backend_at least_index least_from
next-second = refl

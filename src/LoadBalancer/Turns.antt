-- ===== src/LoadBalancer/Turns.antt =====
-- Round robin: whose turn it is, and when the counter breaks it.
use native.Mathlib.Decide.{dec_lt}
use native.Mathlib.Nat.{mod-add-mod, mod-eq_of_lt, mod-eq-sub-mod}
use rathole_pro.Prelude.{
  ℕ, zero, suc, ◌+◌, ◌-◌, ◌%◌, ◌^◌, ◌≤◌, ◌<◌, ◌≡◌, ◌≢◌, refl, ◌∙◌, String, List, [], ◌∷◌, some,
  length, get_elem?, arith,
}
use rathole_pro.LoadBalancer.{
  LoadBalancer, round_robin, returns, panics, to_int, rem_int, choose, backend_at, negate, next,
}

pub get_elem?-some :
    (xs : List String) (i : ℕ) → i < length xs → (x : String) × (get_elem? xs i ≡ some x)
get_elem?-some [] i h = absurd (omega arith)
get_elem?-some (x ∷ xs) zero h = (x, refl)
get_elem?-some (x ∷ xs) (suc i) h = get_elem?-some xs i (omega arith)

-- The calls of `Next` before this one, by the counter alone.
abbrev pub after_calls : ℕ → LoadBalancer → LoadBalancer
after_calls zero lb = lb
after_calls (suc n) lb = after_calls n (next lb 0).1

index_after :
    (n : ℕ) (lb : LoadBalancer)
    → lb.strategy ≡ round_robin
    → 0 < length lb.backends
    → lb.index + n < 2 ^ 64
    → after_calls n lb ≡ record lb { index = lb.index + n }
unfolding next
index_after zero lb rr h fits = ground arith
index_after (suc n) lb rr h fits =
    ground (arith, index_after n (record lb { index = lb.index + 1 }))

-- Under round robin with a backend there, the call number `n` from now returns backend `(index +
-- n) % len`, as long as the counter is below 2^63 by then.
pub next_turn :
    (n : ℕ) (lb : LoadBalancer) (draw : ℕ)
    → lb.strategy ≡ round_robin
    → 0 < length lb.backends
    → lb.index + n < 2 ^ 63
    → (addr : String) × ((next (after_calls n lb) draw).0
        ≡ returns (record { addr = addr; idx = (lb.index + n) % length lb.backends }))
      × (get_elem? lb.backends ((lb.index + n) % length lb.backends) ≡ some addr)
unfolding next choose to_int rem_int backend_at
next_turn n lb draw rr h fits =
    let (addr, at) =
      get_elem?-some lb.backends ((lb.index + n) % length lb.backends) (omega arith) in
    (addr, ground (arith, index_after n lb), at)

step_differs : (r d n : ℕ) → r < n → 0 < d → d < n → (r + d) % n ≢ r
step_differs r d n below p q e = elim (dec_lt (r + d) n) [
  | yes within ↦ omega (arith, mod-eq_of_lt within)
  | no past ↦
      let at_least : n ≤ r + d = omega arith in
      let left : r + d - n < n = omega arith in
      omega (arith, mod-eq-sub-mod at_least, mod-eq_of_lt left)
]

-- Within one round no backend is chosen twice.
pub turns_differ : (k d n : ℕ) → 0 < d → d < n → (k + d) % n ≢ k % n
turns_differ k d n p q e = step_differs (k % n) d n (omega arith) p q (mod-add-mod k n d ∙ e)

backend_at-negate : (xs : List String) (i : ℕ) → i ≢ 0 → backend_at xs (negate i) ≡ panics
unfolding backend_at
backend_at-negate xs zero h = absurd (h refl)
backend_at-negate xs (suc i) h = refl

-- Under round robin with a backend there, `Next` panics if the counter is 2^63 or more, unless the
-- number of backends divides its distance to 2^64.
pub next_panics :
    (lb : LoadBalancer) (draw : ℕ)
    → lb.strategy ≡ round_robin
    → 2 ^ 63 ≤ lb.index
    → lb.index < 2 ^ 64
    → (2 ^ 64 - lb.index) % length lb.backends ≢ 0
    → 0 < length lb.backends
    → (next lb draw).0 ≡ panics
unfolding next choose to_int rem_int backend_at
next_panics lb draw rr lo hi uneven h =
    let far : suc (2 ^ 64 - lb.index - 1) ≡ 2 ^ 64 - lb.index = omega arith in
    ground (arith, far, backend_at-negate lb.backends ((2 ^ 64 - lb.index) % length lb.backends))

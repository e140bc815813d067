-- ===== src/LoadBalancer/Choice.antt =====
-- Least connections, and the range of every choice.
use rathole_pro.Prelude.{
  ℕ, zero, suc, ◌+◌, ◌%◌, ◌^◌, ◌<◌, ◌≡◌, refl, String, true, false, List, [], ◌∷◌, some, length,
  get_elem?, get_or, arith, Bool-cases, ◌⊎◌, inl, inr,
}
use rathole_pro.Prelude.Int.{ℤ, pos, ltb_ℤ, ◌≤ℤ◌}
use rathole_pro.LoadBalancer.{
  LoadBalancer, Strategy, round_robin, random, least_conn, returns, Chosen, to_int, rem_int, choose,
  backend_at, next, least_from, least_index,
}
use rathole_pro.LoadBalancer.Turns.{get_elem?-some}

-- `i` is the first index of a least value of the list.
pub record IsLeast (xs : List ℤ) (i : ℕ) : Type 0 where
  pub in_range : i < length xs
  pub least : (j : ℕ) → j < length xs → get_or xs i (pos 0) ≤ℤ get_or xs j (pos 0)
  pub first : (j : ℕ) → j < i → ltb_ℤ (get_or xs i (pos 0)) (get_or xs j (pos 0)) ≡ true

abbrev IsLess : ℤ → ℤ → Type 0
IsLess a b = ltb_ℤ a b ≡ true

-- The loop keeps the best so far, or finds the first least value of the rest below it.
data Found (i idx : ℕ) (m : ℤ) (rest : List ℤ) (r : ℕ) : Type 0 where
  kept : r ≡ idx → ((j : ℕ) → j < length rest → m ≤ℤ get_or rest j (pos 0)) → Found i idx m rest r
  moved :
      (j : ℕ) → r ≡ i + j → IsLess (get_or rest j (pos 0)) m → IsLeast rest j → Found i idx m rest r

IsLeast-zero :
    (c : ℤ) (rest : List ℤ)
    → ((j : ℕ) → j < length rest → c ≤ℤ get_or rest j (pos 0))
    → IsLeast (c ∷ rest) 0
IsLeast-zero c rest h = record {
  in_range = omega arith;
  least = at;
  first = λ j p. absurd (omega arith);
}
  where
    at : (j : ℕ) → j < length (c ∷ rest) → c ≤ℤ get_or (c ∷ rest) j (pos 0)
    at zero p = omega arith
    at (suc j) p = h j (omega arith)

IsLeast-suc :
    (c : ℤ) (rest : List ℤ) (i : ℕ)
    → IsLess (get_or rest i (pos 0)) c
    → IsLeast rest i
    → IsLeast (c ∷ rest) (suc i)
IsLeast-suc c rest i less h = record {
  in_range = omega (arith, h.in_range);
  least = at;
  first = before;
}
  where
    at : (j : ℕ) → j < length (c ∷ rest) → get_or rest i (pos 0) ≤ℤ get_or (c ∷ rest) j (pos 0)
    at zero p = ground arith
    at (suc j) p = h.least j (omega arith)

    before :
        (j : ℕ) → j < suc i → ltb_ℤ (get_or rest i (pos 0)) (get_or (c ∷ rest) j (pos 0)) ≡ true
    before zero p = less
    before (suc j) p = h.first j (omega arith)

Found-cons_better :
    (i idx : ℕ) (m c : ℤ) (rest : List ℤ) (r : ℕ)
    → IsLess c m
    → Found (suc i) i c rest r
    → Found i idx m (c ∷ rest) r
Found-cons_better i idx m c rest r better (kept e all) =
    moved 0 (omega arith) better (IsLeast-zero c rest all)
Found-cons_better i idx m c rest r better (moved j e less h) =
    moved (suc j) (omega arith) (ground arith) (IsLeast-suc c rest j less h)

Found-cons_worse :
    (i idx : ℕ) (m c : ℤ) (rest : List ℤ) (r : ℕ)
    → ltb_ℤ c m ≡ false
    → Found (suc i) idx m rest r
    → Found i idx m (c ∷ rest) r
Found-cons_worse i idx m c rest r worse (kept e all) = kept e at
  where
    at : (j : ℕ) → j < length (c ∷ rest) → m ≤ℤ get_or (c ∷ rest) j (pos 0)
    at zero p = ground arith
    at (suc j) p = all j (omega arith)
Found-cons_worse i idx m c rest r worse (moved j e less h) =
    moved (suc j) (omega arith) less (IsLeast-suc c rest j (ground arith) h)

least_from-Found :
    (i idx : ℕ) (m : ℤ) (rest : List ℤ) → Found i idx m rest (least_from i idx m rest)
unfolding least_from
least_from-Found i idx m [] = kept refl (λ j p. absurd (omega arith))
least_from-Found i idx m (c ∷ rest) = elim (Bool-cases (ltb_ℤ c m)) [
  | inl better ↦
      rw better (Found-cons_better i idx m c rest _ better (least_from-Found (suc i) i c rest))
  | inr worse ↦
      rw worse (Found-cons_worse i idx m c rest _ worse (least_from-Found (suc i) idx m rest))
]

add-one_left : (j : ℕ) → 1 + j ≡ suc j
add-one_left j = omega arith

-- The loop returns the first index of a least count.
pub least_index-IsLeast : (xs : List ℤ) → 0 < length xs → IsLeast xs (least_index xs)
unfolding least_index
least_index-IsLeast [] h = absurd (omega arith)
least_index-IsLeast (c ∷ rest) h = first_least (least_from-Found 1 0 c rest)
  where
    first_least :
        Found 1 0 c rest (least_from 1 0 c rest) → IsLeast (c ∷ rest) (least_from 1 0 c rest)
    first_least (kept e all) = rw e (IsLeast-zero c rest all)
    first_least (moved j e less h') = rw (e, add-one_left j) (IsLeast-suc c rest j less h')

-- Each backend has a count.
abbrev pub IsSound : LoadBalancer → Type 0
IsSound lb = length lb.connections ≡ length lb.backends

next_at :
    (lb : LoadBalancer) (draw i : ℕ)
    → choose lb.strategy lb draw ≡ pos i
    → i < length lb.backends
    → (addr : String) × ((next lb draw).0 ≡ returns (record { addr = addr; idx = i }))
      × (get_elem? lb.backends i ≡ some addr)
unfolding next backend_at
next_at lb draw i chosen below =
    let (addr, at) = get_elem?-some lb.backends i below in (addr, ground arith, at)

Strategy-cases : (s : Strategy) → (s ≡ round_robin) ⊎ ((s ≡ random) ⊎ (s ≡ least_conn))
Strategy-cases round_robin = inl refl
Strategy-cases random = inr (inl refl)
Strategy-cases least_conn = inr (inr refl)

-- With a backend there and a count for each, `Next` returns one of the backends under every
-- strategy, as long as the counter is below 2^63 and the generator keeps its range.
pub next_in_range :
    (lb : LoadBalancer) (draw : ℕ)
    → IsSound lb
    → 0 < length lb.backends
    → lb.index < 2 ^ 63
    → draw < length lb.backends
    → (c : Chosen) × ((next lb draw).0 ≡ returns c) × (get_elem? lb.backends c.idx ≡ some c.addr)
unfolding choose to_int rem_int
next_in_range lb draw sound h fits in_range = elim (Strategy-cases lb.strategy) [
  | inl rr ↦
      let (addr, r, at) =
        next_at lb draw (lb.index % length lb.backends) (ground arith) (omega arith) in
      (record { addr = addr; idx = lb.index % length lb.backends }, r, at)
  | inr (inl rand) ↦
      let (addr, r, at) = next_at lb draw draw (ground arith) in_range in
      (record { addr = addr; idx = draw }, r, at)
  | inr (inr least) ↦
      let best = least_index-IsLeast lb.connections (omega arith) in
      let (addr, r, at) =
        next_at lb draw (least_index lb.connections) (ground arith)
          (omega (arith, best.in_range)) in
      (record { addr = addr; idx = least_index lb.connections }, r, at)
]

-- Under `least_conn`, with a backend there and a count for each, `Next` returns the first of the
-- backends with the fewest connections.
pub next-IsLeast :
    (lb : LoadBalancer) (draw : ℕ)
    → IsSound lb
    → 0 < length lb.backends
    → lb.strategy ≡ least_conn
    → (c : Chosen) × ((next lb draw).0 ≡ returns c)
      × (get_elem? lb.backends c.idx ≡ some c.addr)
      × IsLeast lb.connections c.idx
unfolding choose
next-IsLeast lb draw sound h least =
    let best = least_index-IsLeast lb.connections (omega arith) in
    let (addr, r, at) =
      next_at lb draw (least_index lb.connections) (ground arith) (omega (arith, best.in_range)) in
    (record { addr = addr; idx = least_index lb.connections }, r, at, best)

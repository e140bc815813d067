-- ===== src/LoadBalancer.antt =====
-- go-core/loadbalancer/loadbalancer.go: the choice of a backend and the count of connections.
-- The counts are integers that do not wrap; the mutex and the atomic operations are left out: an
-- operation of the model is one call that no other call interrupts.
pub mod Turns
pub mod Choice
pub mod Counts
use rathole_pro.Prelude.{
  ℕ, zero, suc, ◌+◌, ◌-◌, ◌%◌, ◌^◌, ◌<◌, ◌≡◌, String, Bool, true, false, not, ◌&&◌, List, [], ◌∷◌,
  Option, none, some, str_eq, ltb, leb, ◌==◌, if◌then◌else◌, length, get_elem?, get_or, set, map,
  replicate,
}
use rathole_pro.Prelude.Int.{ℤ, pos, negsuc, ltb_ℤ, ◌+ℤ◌}
use rathole_pro.Prelude.Exec.{Err, errorf, wrapf, Result, ok, err}

pub data Strategy : Type 0 where
  round_robin random least_conn : Strategy

unfoldable pub parse_strategy : String → Strategy
parse_strategy s =
    if str_eq s "random"
    then random
    else (if str_eq s "least_conn" then least_conn else round_robin)

-- `index` is a uint64; the generator is the argument `draw` of the calls.
pub record LoadBalancer : Type 0 where
  pub backends : List String
  pub strategy : Strategy
  pub index : ℕ
  pub connections : List ℤ

unfoldable pub new_load_balancer : List String → Strategy → LoadBalancer
new_load_balancer backends strategy = record {
  backends = backends;
  strategy = strategy;
  index = 0;
  connections = map (λ _. pos 0) backends;
}

-- `int(x)` of a uint64, and `a % n` of an int by a positive one, which takes the sign of `a`.
unfoldable pub to_int : ℕ → ℤ
to_int x = if ltb x (2 ^ 63) then pos x else negsuc (2 ^ 64 - x - 1)

abbrev pub negate : ℕ → ℤ
negate zero = pos 0
negate (suc n) = negsuc n

unfoldable pub rem_int : ℤ → ℕ → ℤ
rem_int (pos a) n = pos (a % n)
rem_int (negsuc a) n = negate (suc a % n)

-- The loop of `LeastConn`: the connections from index `i` on, and the best so far.
unfoldable pub least_from : ℕ → ℕ → ℤ → List ℤ → ℕ
least_from i idx min_conn [] = idx
least_from i idx min_conn (c ∷ rest) =
    least_from (suc i) (if ltb_ℤ c min_conn then i else idx)
      (if ltb_ℤ c min_conn then c else min_conn) rest

unfoldable pub least_index : List ℤ → ℕ
least_index [] = 0
least_index (c ∷ rest) = least_from 1 0 c rest

-- What a call ends with; an index out of range panics.
pub data Outcome (A : Type 0) : Type 0 where
  returns : A → Outcome A
  fails : Err → Outcome A
  panics : Outcome A

pub record Chosen : Type 0 where
  pub addr : String
  pub idx : ℕ

-- `lb.backends[idx], idx`
unfoldable pub backend_at : List String → ℤ → Outcome Chosen
backend_at backends (negsuc i) = panics
backend_at backends (pos i) = elim (get_elem? backends i) [
  | none ↦ panics
  | some addr ↦ returns (record { addr = addr; idx = i })
]

-- `draw` is what `rng.Intn(len(lb.backends))` gives.
unfoldable pub choose : Strategy → LoadBalancer → ℕ → ℤ
choose round_robin lb draw = rem_int (to_int lb.index) (length lb.backends)
choose random lb draw = pos draw
choose least_conn lb draw = pos (least_index lb.connections)

abbrev pub turn : Strategy → ℕ → ℕ
turn round_robin index = (index + 1) % 2 ^ 64
turn random index = index
turn least_conn index = index

unfoldable pub next : LoadBalancer → ℕ → Outcome Chosen × LoadBalancer
next lb draw = if length lb.backends == 0 then (fails (errorf "no backends available"), lb) else (
  backend_at lb.backends (choose lb.strategy lb draw),
  record lb { index = turn lb.strategy lb.index },
)

-- `atomic.AddInt64(&lb.connections[idx], d)`
unfoldable pub add_connections : ℕ → ℤ → LoadBalancer → LoadBalancer
add_connections idx d lb = record lb {
  connections = set lb.connections idx (get_or lb.connections idx (pos 0) +ℤ d);
}

-- `dial` is what `net.DialTimeout` gives for an address.
unfoldable pub connect :
    (dial : String → Result ℕ) → LoadBalancer → ℕ → Outcome (ℕ × ℕ) × LoadBalancer
connect dial lb draw =
    let r = next lb draw in
    elim r.0 [
      | panics ↦ (panics, r.1)
      | fails e ↦ (fails e, r.1)
      | returns c ↦
          let counted = add_connections c.idx (pos 1) r.1 in
          elim (dial c.addr) [
            | err e ↦ (fails (wrapf "backend failed" e), add_connections c.idx (negsuc 0) counted)
            | ok conn ↦ (returns (conn, c.idx), counted)
          ]
    ]

unfoldable pub release : ℤ → LoadBalancer → LoadBalancer
release (negsuc i) lb = lb
release (pos i) lb = if ltb i (length lb.connections) then add_connections i (negsuc 0) lb else lb

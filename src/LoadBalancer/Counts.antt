-- ===== src/LoadBalancer/Counts.antt =====
-- The number of connections that each backend is counted with.
use rathole_pro.Prelude.{
  ℕ, zero, suc, ◌<◌, ◌≡◌, refl, ap, String, List, [], ◌∷◌, length, length-set, get_or, set, arith,
}
use rathole_pro.Prelude.Int.{ℤ, pos, negsuc, ◌+ℤ◌}
use rathole_pro.Prelude.Exec.{Err, wrapf, Result, ok, err}
use rathole_pro.LoadBalancer.{
  LoadBalancer, returns, fails, Chosen, next, add_connections, connect, release,
}

set-set : (xs : List ℤ) (i : ℕ) (a b : ℤ) → set (set xs i a) i b ≡ set xs i b
set-set [] i a b = refl
set-set (x ∷ xs) zero a b = refl
set-set (x ∷ xs) (suc i) a b = ap (◌∷◌ x) (set-set xs i a b)

set_get : (xs : List ℤ) (i : ℕ) → set xs i (get_or xs i (pos 0)) ≡ xs
set_get [] i = refl
set_get (x ∷ xs) zero = refl
set_get (x ∷ xs) (suc i) = ap (◌∷◌ x) (set_get xs i)

get_set : (xs : List ℤ) (i : ℕ) (a : ℤ) → i < length xs → get_or (set xs i a) i (pos 0) ≡ a
get_set [] i a h = absurd (omega arith)
get_set (x ∷ xs) zero a h = refl
get_set (x ∷ xs) (suc i) a h = get_set xs i a (omega arith)

up_down : (a : ℤ) → a +ℤ pos 1 +ℤ negsuc 0 ≡ a
unfolding ◌+ℤ◌
up_down a = ground arith

-- Counting one connection and then one fewer changes nothing.
add_connections_cancel :
    (i : ℕ) (lb : LoadBalancer)
    → i < length lb.connections
    → add_connections i (negsuc 0) (add_connections i (pos 1) lb) ≡ lb
unfolding add_connections
add_connections_cancel i lb h = ground (
  arith,
  set-set lb.connections i (get_or lb.connections i (pos 0) +ℤ pos 1)
      (get_or lb.connections i (pos 0)),
  set_get lb.connections i,
  get_set lb.connections i (get_or lb.connections i (pos 0) +ℤ pos 1),
  up_down (get_or lb.connections i (pos 0)),
)

next_connections : (lb : LoadBalancer) (draw : ℕ) → (next lb draw).1.connections ≡ lb.connections
unfolding next
next_connections lb draw = ground arith

length-add_connections :
    (i : ℕ) (d : ℤ) (lb : LoadBalancer)
    → length (add_connections i d lb).connections ≡ length lb.connections
unfolding add_connections
length-add_connections i d lb = length-set lb.connections i _

-- Where `Next` returns a backend that has a count, a `Connect` whose dial fails gives its error
-- and leaves every count as it was.
pub connect_fails :
    (dial : String → Result ℕ) (lb : LoadBalancer) (draw : ℕ) (c : Chosen) (e : Err)
    → (next lb draw).0 ≡ returns c
    → c.idx < length lb.connections
    → dial c.addr ≡ err e
    → ((connect dial lb draw).0 ≡ fails (wrapf "backend failed" e))
      × ((connect dial lb draw).1.connections ≡ lb.connections)
unfolding connect
connect_fails dial lb draw c e r below down =
    ground (arith, next_connections lb draw, add_connections_cancel c.idx (next lb draw).1)

-- Where `Next` returns a backend that has a count, a `Connect` whose dial succeeds adds one to
-- that count only, and a `Release` of that index takes it back.
pub release-connect :
    (dial : String → Result ℕ) (lb : LoadBalancer) (draw conn : ℕ) (c : Chosen)
    → (next lb draw).0 ≡ returns c
    → c.idx < length lb.connections
    → dial c.addr ≡ ok conn
    → ((connect dial lb draw).0 ≡ returns (conn, c.idx))
      × ((connect dial lb draw).1.connections
          ≡ set lb.connections c.idx (get_or lb.connections c.idx (pos 0) +ℤ pos 1))
      × ((release (pos c.idx) (connect dial lb draw).1).connections ≡ lb.connections)
unfolding connect release
release-connect dial lb draw conn c r below up =
    let v = (next lb draw).1 in
    let same = next_connections lb draw in
    let added : (add_connections c.idx (pos 1) v).connections
        ≡ set lb.connections c.idx (get_or lb.connections c.idx (pos 0) +ℤ pos 1) =
      unfold add_connections in ground (arith, same) in
    (
      ground arith,
      ground (arith, added),
      ground (arith, same, length-add_connections c.idx (pos 1) v, add_connections_cancel c.idx v),
    )

-- ===== src/Server/Pool/Rotation.antt =====
-- Which session `pick` returns, what it drops, and the order of repeated calls.
use mathlib.Core.List.{Perm, perm_middle}
use mathlib.Core.List.Perm
use native.Mathlib.Decide.{ℕ_discrete}
use rathole_pro.Prelude.{
  ◌≢◌, ℕ, zero, suc, ◌≡◌, refl, ap, ◌∙◌, Bool, true, false, List, [], ◌∷◌, ◌++◌, append_assoc,
  append-nil, map, Option, none, some, ◌⊎◌, inl, inr, if◌then◌else◌, arith, All, length, Bool-cases,
}
use rathole_pro.Server.Pool.{SessionPool, pick_loop, pick, remove_loop}

-- The sessions that are not closed, in order.
unfoldable pub live : (ℕ → Bool) → List ℕ → List ℕ
live is_closed [] = []
live is_closed (s ∷ rest) = let more = live is_closed rest in if is_closed s then more else s ∷ more

-- `pick` on a queue: the first live session goes to the back, what stood before it is dropped.
pub data Picks (is_closed : ℕ → Bool) (queue : List ℕ) (r : Option ℕ × List ℕ) : Type 0 where
  found :
      (dead : List ℕ) (s : ℕ) (rest : List ℕ)
      → queue ≡ dead ++ s ∷ rest
      → All (λ x. is_closed x ≡ true) dead
      → is_closed s ≡ false
      → r ≡ (some s, rest ++ s ∷ [])
      → Picks is_closed queue r
  exhausted : All (λ x. is_closed x ≡ true) queue → r ≡ (none, []) → Picks is_closed queue r

Picks-cons :
    (is_closed : ℕ → Bool) (s : ℕ) (rest : List ℕ) (r : Option ℕ × List ℕ)
    → is_closed s ≡ true
    → Picks is_closed rest r
    → Picks is_closed (s ∷ rest) r
Picks-cons is_closed s rest r dead_s (found dead x more split dead_all alive e) =
    found (s ∷ dead) x more (ap (◌∷◌ s) split) (dead_s, dead_all) alive e
Picks-cons is_closed s rest r dead_s (exhausted dead_all e) = exhausted (dead_s, dead_all) e

-- `pick` returns the first live session and puts it at the back, drops the closed ones before it,
-- and without a live session leaves an empty queue.
pub pick_loop-Picks :
    (is_closed : ℕ → Bool) (queue : List ℕ) → Picks is_closed queue (pick_loop is_closed queue)
unfolding pick_loop
pick_loop-Picks is_closed [] = exhausted tt refl
pick_loop-Picks is_closed (s ∷ rest) = elim (Bool-cases (is_closed s)) [
  | inl dead ↦ rw dead (Picks-cons is_closed s rest _ dead (pick_loop-Picks is_closed rest))
  | inr alive ↦ rw alive (found [] s rest refl tt alive refl)
]

live-append :
    (is_closed : ℕ → Bool) (xs ys : List ℕ)
    → live is_closed (xs ++ ys) ≡ live is_closed xs ++ live is_closed ys
unfolding live
live-append is_closed [] ys = refl
live-append is_closed (x ∷ xs) ys = ground (arith, live-append is_closed xs ys)

-- The live sessions after `pick` are those before it, in some order.
pub live-pick_loop :
    (is_closed : ℕ → Bool) (queue : List ℕ)
    → Perm (live is_closed (pick_loop is_closed queue).1) (live is_closed queue)
unfolding pick_loop live
live-pick_loop is_closed [] = Perm.refl []
live-pick_loop is_closed (s ∷ rest) = elim (Bool-cases (is_closed s)) [
  | inl dead ↦ rw dead (live-pick_loop is_closed rest)
  | inr alive ↦
      rw (alive, live-append, alive)
        (rw append-nil at (perm_middle {a = s} (live is_closed rest) []))
]

-- The sessions that `count` calls of `pick` return.
pub picks : ℕ → (ℕ → Bool) → SessionPool → List (Option ℕ)
picks zero is_closed p = []
picks (suc count) is_closed p = let r = pick is_closed p in r.0 ∷ picks count is_closed r.1

abbrev pool_of : List ℕ → SessionPool
pool_of queue = record { sessions = queue }

picks_dead :
    (count : ℕ) (is_closed : ℕ → Bool) (x : ℕ) (queue : List ℕ)
    → is_closed x ≡ true
    → picks count is_closed (pool_of (x ∷ queue)) ≡ picks count is_closed (pool_of queue)
unfolding picks pick pick_loop
picks_dead zero is_closed x queue dead = refl
picks_dead (suc count) is_closed x queue dead = rw dead

picks_alive :
    (count : ℕ) (is_closed : ℕ → Bool) (x : ℕ) (queue : List ℕ)
    → is_closed x ≡ false
    → picks (suc count) is_closed (pool_of (x ∷ queue))
      ≡ some x ∷ picks count is_closed (pool_of (queue ++ x ∷ []))
unfolding picks pick pick_loop
picks_alive count is_closed x queue alive = rw alive

picks_front :
    (is_closed : ℕ → Bool) (xs ys : List ℕ)
    → picks (length (live is_closed xs)) is_closed (pool_of (xs ++ ys))
      ≡ map some (live is_closed xs)
unfolding live
picks_front is_closed [] ys = unfold picks in refl
picks_front is_closed (x ∷ xs) ys = elim (Bool-cases (is_closed x)) [
  | inl dead ↦ rw dead (picks_dead _ is_closed x (xs ++ ys) dead ∙ picks_front is_closed xs ys)
  | inr alive ↦ rw alive (
      picks_alive _ is_closed x (xs ++ ys) alive
      ∙ ap (◌∷◌ (some x))
          (rw (append_assoc xs ys (x ∷ [])) (picks_front is_closed xs (ys ++ x ∷ []))))
]

-- While no session closes, as many calls of `pick` as there are live sessions return each of them
-- once, in the order of the queue.
pub picks_round :
    (is_closed : ℕ → Bool) (p : SessionPool)
    → picks (length (live is_closed p.sessions)) is_closed p ≡ map some (live is_closed p.sessions)
picks_round is_closed p = rw append-nil at (picks_front is_closed p.sessions [])

-- `remove` takes out the first entry of the session if there is one, and nothing otherwise.
pub remove_loop_lem :
    (target : ℕ) (queue : List ℕ)
    → ((front : List ℕ) × (back : List ℕ) × (queue ≡ front ++ target ∷ back)
        × All (λ x. x ≢ target) front
        × (remove_loop target queue ≡ front ++ back))
      ⊎ (All (λ x. x ≢ target) queue × (remove_loop target queue ≡ queue))
unfolding remove_loop
remove_loop_lem target [] = inr (tt, refl)
remove_loop_lem target (s ∷ rest) = elim (ℕ_discrete s target) [
  | yes hit ↦ inl ([], rest, ground arith, tt, ground arith)
  | no miss ↦ elim (remove_loop_lem target rest) [
    | inl (front, back, split, absent, e) ↦
        inl (s ∷ front, back, ap (◌∷◌ s) split, (miss, absent), ground arith)
    | inr (absent, e) ↦ inr ((miss, absent), ground arith)
  ]
]

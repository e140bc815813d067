-- ===== src/Server/Run/Waiting.antt =====
-- go-core/server/server.go: the goroutine of a UDP service waits for a session for ever.
use rathole_pro.Prelude.{
  ℕ, ◌≡◌, refl, ◌∙◌, arith, Bool, true, false, List, [], ◌∷◌, ◌++◌, none, some, All,
}
use rathole_pro.Prelude.Exec.{ok}
use rathole_pro.Server.Pool.{udp_pick, pick_loop}
use rathole_pro.Server.Run.{
  picking, blocked, serving, UdpLoop, LoopEvent, picks, opens, returns, joins, loop_step, udp_loop,
}

pick_loop-none :
    (is_closed : ℕ → Bool) (queue : List ℕ)
    → All (λ s. is_closed s ≡ true) queue
    → pick_loop is_closed queue ≡ (none, [])
unfolding pick_loop
pick_loop-none is_closed [] all = refl
pick_loop-none is_closed (s ∷ rest) (dead, all) = rw dead (pick_loop-none is_closed rest all)

step_blocked :
    (e : LoopEvent) (l : UdpLoop)
    → l.phase ≡ blocked
    → ((loop_step e l).phase ≡ blocked) × ((loop_step e l).served ≡ l.served)
unfolding loop_step
step_blocked (picks is_closed) l h = ground (arith)
step_blocked (opens r) l h = ground (arith)
step_blocked returns l h = ground (arith)
step_blocked (joins s) l h = ground (arith)

udp_loop_blocked :
    (es : List LoopEvent) (l : UdpLoop)
    → l.phase ≡ blocked
    → ((udp_loop es l).phase ≡ blocked) × ((udp_loop es l).served ≡ l.served)
unfolding udp_loop
udp_loop_blocked [] l h = (h, refl)
udp_loop_blocked (e ∷ es) l h =
    let (still, same) = step_blocked e l h in
    let (end, kept) = udp_loop_blocked es (loop_step e l) still in (end, kept ∙ same)

pick_blocks :
    (l : UdpLoop) (is_closed : ℕ → Bool)
    → l.phase ≡ picking
    → All (λ s. is_closed s ≡ true) l.pool.sessions
    → ((loop_step (picks is_closed) l).phase ≡ blocked)
      × ((loop_step (picks is_closed) l).served ≡ l.served)
unfolding loop_step udp_pick
pick_blocks l is_closed ready dead = ground (arith, pick_loop-none is_closed l.pool.sessions dead)

pub pick_loop_first :
    (is_closed : ℕ → Bool) (dead : List ℕ) (s : ℕ) (rest : List ℕ)
    → All (λ x. is_closed x ≡ true) dead
    → is_closed s ≡ false
    → pick_loop is_closed (dead ++ s ∷ rest) ≡ (some s, rest ++ s ∷ [])
unfolding pick_loop
pick_loop_first is_closed [] s rest all alive = rw alive refl
pick_loop_first is_closed (d ∷ dead) s rest (gone, all) alive =
    rw gone (pick_loop_first is_closed dead s rest all alive)

-- If the goroutine of a UDP service, whatever it has served before, picks when its pool has no
-- session that is open, it never serves a stream again, whichever sessions join its pool later
-- and in whatever order the events come.
pub udp_loop-blocked :
    (l : UdpLoop) (is_closed : ℕ → Bool) (es : List LoopEvent)
    → l.phase ≡ picking
    → All (λ s. is_closed s ≡ true) l.pool.sessions
    → ((udp_loop (picks is_closed ∷ es) l).phase ≡ blocked)
      × ((udp_loop (picks is_closed ∷ es) l).served ≡ l.served)
unfolding udp_loop
udp_loop-blocked l is_closed es ready dead =
    let (now, same) = pick_blocks l is_closed ready dead in
    let (end, kept) = udp_loop_blocked es (loop_step (picks is_closed) l) now in (end, kept ∙ same)

-- If the goroutine picks when the first open session of its pool is `s`, and yamux opens a
-- stream on it, that stream is served, and the session stands at the back of the pool.
pub udp_loop_serves :
    (l : UdpLoop) (is_closed : ℕ → Bool) (dead rest : List ℕ) (s stream : ℕ)
    → l.phase ≡ picking
    → l.pool.sessions ≡ dead ++ s ∷ rest
    → All (λ x. is_closed x ≡ true) dead
    → is_closed s ≡ false
    → udp_loop (picks is_closed ∷ opens (ok stream) ∷ []) l ≡ record {
      phase = serving stream;
      pool = record { sessions = rest ++ s ∷ [] };
      served = l.served ++ stream ∷ [];
    }
unfolding udp_loop loop_step udp_pick
udp_loop_serves l is_closed dead rest s stream ready split closed alive =
    rw (ready, split, pick_loop_first is_closed dead s rest closed alive) refl

-- ===== src/Relay/Ends.antt =====
-- go-core/relay/relay.go: when a copy ends, and what the peers learn of it.
use rathole_pro.Prelude.{
  ℕ, ◌≡◌, refl, arith, Bool, true, false, List, [], ◌∷◌, ◌++◌, append-nil, All,
}
use rathole_pro.Relay.{
  Copy, into_a, into_b, Relaying, Event, arrives, ends, moves, finishes, fails, move, close_write,
  close_end, end_copy, relay_step, relay, source, target, is_nil, copy_done,
}
use rathole_pro.Relay.Order.{received, line, relay-line}

abbrev pub no_failure : Event → Bool
no_failure (fails c) = false
no_failure (arrives c bytes) = true
no_failure (ends c) = true
no_failure (moves c n) = true
no_failure (finishes c) = true

-- A copy that is done has read all of a source that has ended.
abbrev pub IsDrained : Copy → Relaying → Type 0
IsDrained c r = copy_done c r ≡ true → ((source c r).eof ≡ true) × ((source c r).incoming ≡ [])

is_nil_inv : (xs : List ℕ) → is_nil xs ≡ true → xs ≡ []
is_nil_inv [] e = refl
is_nil_inv (x ∷ xs) e = ground arith

pub step-IsDrained :
    (c : Copy) (e : Event) (r : Relaying)
    → no_failure e ≡ true
    → IsDrained c r
    → IsDrained c (relay_step e r)
unfolding relay_step move end_copy close_write close_end
step-IsDrained into_a (arrives into_a bytes) r ok h = ground (arith, h, is_nil_inv r.b.incoming)
step-IsDrained into_a (arrives into_b bytes) r ok h = ground (arith, h, is_nil_inv r.b.incoming)
step-IsDrained into_a (ends into_a) r ok h = ground (arith, h, is_nil_inv r.b.incoming)
step-IsDrained into_a (ends into_b) r ok h = ground (arith, h, is_nil_inv r.b.incoming)
step-IsDrained into_a (moves into_a n) r ok h = ground (arith, h, is_nil_inv r.b.incoming)
step-IsDrained into_a (moves into_b n) r ok h = ground (arith, h, is_nil_inv r.b.incoming)
step-IsDrained into_a (finishes into_a) r ok h = ground (arith, h, is_nil_inv r.b.incoming)
step-IsDrained into_a (finishes into_b) r ok h = ground (arith, h, is_nil_inv r.b.incoming)
step-IsDrained into_a (fails d) r ok h = ground (arith)
step-IsDrained into_b (arrives into_a bytes) r ok h = ground (arith, h, is_nil_inv r.a.incoming)
step-IsDrained into_b (arrives into_b bytes) r ok h = ground (arith, h, is_nil_inv r.a.incoming)
step-IsDrained into_b (ends into_a) r ok h = ground (arith, h, is_nil_inv r.a.incoming)
step-IsDrained into_b (ends into_b) r ok h = ground (arith, h, is_nil_inv r.a.incoming)
step-IsDrained into_b (moves into_a n) r ok h = ground (arith, h, is_nil_inv r.a.incoming)
step-IsDrained into_b (moves into_b n) r ok h = ground (arith, h, is_nil_inv r.a.incoming)
step-IsDrained into_b (finishes into_a) r ok h = ground (arith, h, is_nil_inv r.a.incoming)
step-IsDrained into_b (finishes into_b) r ok h = ground (arith, h, is_nil_inv r.a.incoming)
step-IsDrained into_b (fails d) r ok h = ground (arith)

pub run-IsDrained :
    (c : Copy) (es : List Event) (r : Relaying)
    → All (λ e. no_failure e ≡ true) es
    → IsDrained c r
    → IsDrained c (relay es r)
unfolding relay
run-IsDrained c [] r all h = h
run-IsDrained c (e ∷ es) r (ok, all) h =
    run-IsDrained c es (relay_step e r) all (step-IsDrained c e r ok h)

-- If no read and no write fails, a copy that still runs at the start and is done after the run has
-- written, behind what its target had been sent before, all that was there for it and all that
-- came, in order.
pub relay_delivers :
    (c : Copy) (es : List Event) (r : Relaying)
    → All (λ e. no_failure e ≡ true) es
    → copy_done c r ≡ false
    → copy_done c (relay es r) ≡ true
    → (target c (relay es r)).outgoing ≡ line c r ++ received c es r
relay_delivers c es r all running over =
    let (ended, read) = run-IsDrained c es r all (ground (arith)) over in
    ground (arith, relay-line c es r, read, append-nil (target c (relay es r)).outgoing)

-- The other end does not end and nothing fails.
abbrev pub keeps_talking : Event → Bool
keeps_talking (ends into_a) = false
keeps_talking (ends into_b) = true
keeps_talking (fails c) = false
keeps_talking (arrives c bytes) = true
keeps_talking (moves c n) = true
keeps_talking (finishes c) = true

-- `b` is no TCP connection, still talks, and neither end is closed.
abbrev pub IsWaiting : Relaying → Type 0
IsWaiting r =
    (r.b.is_tcp ≡ false)
    × (r.b.eof ≡ false)
    × (r.into_a_done ≡ false)
    × (r.b.write_closed ≡ false)
    × (r.a.closed ≡ false)
    × (r.b.closed ≡ false)

step-IsWaiting :
    (e : Event) (r : Relaying) → keeps_talking e ≡ true → IsWaiting r → IsWaiting (relay_step e r)
unfolding relay_step move end_copy close_write close_end
step-IsWaiting (arrives into_a bytes) r ok h = ground (arith, h)
step-IsWaiting (arrives into_b bytes) r ok h = ground (arith, h)
step-IsWaiting (ends into_a) r ok h = ground (arith, h)
step-IsWaiting (ends into_b) r ok h = ground (arith, h)
step-IsWaiting (moves into_a n) r ok h = ground (arith, h)
step-IsWaiting (moves into_b n) r ok h = ground (arith, h)
step-IsWaiting (finishes into_a) r ok h = ground (arith, h)
step-IsWaiting (finishes into_b) r ok h = ground (arith, h)
step-IsWaiting (fails c) r ok h = ground (arith, h)

-- Where `b` is not a `*net.TCPConn`, as the yamux stream of `handleVisitor` is not, has not ended,
-- and its copy into `a` still runs, with nothing half-closed on `b` and neither end closed: as
-- long as `b` does not end and nothing fails, that stays so, whatever `a` sends, and even if `a`
-- ends and its copy is done, so the peer of `b` is not told of it.
pub relay-IsWaiting :
    (es : List Event) (r : Relaying)
    → All (λ e. keeps_talking e ≡ true) es
    → IsWaiting r
    → IsWaiting (relay es r)
unfolding relay
relay-IsWaiting [] r all h = h
relay-IsWaiting (e ∷ es) r (ok, all) h =
    relay-IsWaiting es (relay_step e r) all (step-IsWaiting e r ok h)

-- ===== src/Relay/Returns.antt =====
-- go-core/relay/relay.go: a relay whose peers have both ended returns.
use mathlib.Core.Path.{subst}
use rathole_pro.Prelude.{
  ℕ, ◌≡◌, ◌≤◌, refl, ap, ◌∙◌, arith, true, false, ◌&&◌, List, [], ◌∷◌, ◌++◌, append-nil, All,
  length, length-drop, drop_all,
}
use rathole_pro.Relay.{
  Copy, into_a, into_b, Relaying, Event, arrives, ends, moves, finishes, fails, move, close_write,
  close_end, end_copy, relay_step, relay, source, copy_done,
}
use rathole_pro.Relay.Order.{arrived, received}
use rathole_pro.Relay.Ends.{no_failure, relay_delivers, IsDrained, run-IsDrained}

-- The source of a copy has ended, and at most so many bytes of it are left to read.
abbrev IsEnding : Copy → ℕ → Relaying → Type 0
IsEnding c n r = ((source c r).eof ≡ true) × (length (source c r).incoming ≤ n)

step-IsEnding :
    (c : Copy) (e : Event) (n : ℕ) (r : Relaying) → IsEnding c n r → IsEnding c n (relay_step e r)
unfolding relay_step move end_copy close_write close_end
step-IsEnding into_a (arrives into_a bytes) n r h = (ground (arith, h), ground (arith, h))
step-IsEnding into_a (arrives into_b bytes) n r h = (ground (arith, h), ground (arith, h))
step-IsEnding into_a (ends into_a) n r h = (ground (arith, h), ground (arith, h))
step-IsEnding into_a (ends into_b) n r h = (ground (arith, h), ground (arith, h))
step-IsEnding into_a (moves into_a m) n r h =
    (ground (arith, h, length-drop m r.b.incoming), ground (arith, h, length-drop m r.b.incoming))
step-IsEnding into_a (moves into_b m) n r h =
    (ground (arith, h, length-drop m r.b.incoming), ground (arith, h, length-drop m r.b.incoming))
step-IsEnding into_a (finishes into_a) n r h = (ground (arith, h), ground (arith, h))
step-IsEnding into_a (finishes into_b) n r h = (ground (arith, h), ground (arith, h))
step-IsEnding into_a (fails into_a) n r h = (ground (arith, h), ground (arith, h))
step-IsEnding into_a (fails into_b) n r h = (ground (arith, h), ground (arith, h))
step-IsEnding into_b (arrives into_a bytes) n r h = (ground (arith, h), ground (arith, h))
step-IsEnding into_b (arrives into_b bytes) n r h = (ground (arith, h), ground (arith, h))
step-IsEnding into_b (ends into_a) n r h = (ground (arith, h), ground (arith, h))
step-IsEnding into_b (ends into_b) n r h = (ground (arith, h), ground (arith, h))
step-IsEnding into_b (moves into_a m) n r h =
    (ground (arith, h, length-drop m r.a.incoming), ground (arith, h, length-drop m r.a.incoming))
step-IsEnding into_b (moves into_b m) n r h =
    (ground (arith, h, length-drop m r.a.incoming), ground (arith, h, length-drop m r.a.incoming))
step-IsEnding into_b (finishes into_a) n r h = (ground (arith, h), ground (arith, h))
step-IsEnding into_b (finishes into_b) n r h = (ground (arith, h), ground (arith, h))
step-IsEnding into_b (fails into_a) n r h = (ground (arith, h), ground (arith, h))
step-IsEnding into_b (fails into_b) n r h = (ground (arith, h), ground (arith, h))

run-IsEnding :
    (c : Copy) (es : List Event) (n : ℕ) (r : Relaying) → IsEnding c n r → IsEnding c n (relay es r)
unfolding relay
run-IsEnding c [] n r h = h
run-IsEnding c (e ∷ es) n r h = run-IsEnding c es n (relay_step e r) (step-IsEnding c e n r h)

-- A connection is closed when both copies are done, and not before.
abbrev pub ClosesAtEnd : Relaying → Type 0
ClosesAtEnd r =
    (r.a.closed ≡ r.into_a_done && r.into_b_done) × (r.b.closed ≡ r.into_a_done && r.into_b_done)

step-ClosesAtEnd : (e : Event) (r : Relaying) → ClosesAtEnd r → ClosesAtEnd (relay_step e r)
unfolding relay_step move end_copy close_write close_end
step-ClosesAtEnd (arrives into_a bytes) r h = (ground (arith, h), ground (arith, h))
step-ClosesAtEnd (arrives into_b bytes) r h = (ground (arith, h), ground (arith, h))
step-ClosesAtEnd (ends into_a) r h = (ground (arith, h), ground (arith, h))
step-ClosesAtEnd (ends into_b) r h = (ground (arith, h), ground (arith, h))
step-ClosesAtEnd (moves into_a m) r h = (ground (arith, h), ground (arith, h))
step-ClosesAtEnd (moves into_b m) r h = (ground (arith, h), ground (arith, h))
step-ClosesAtEnd (finishes into_a) r h = (ground (arith, h), ground (arith, h))
step-ClosesAtEnd (finishes into_b) r h = (ground (arith, h), ground (arith, h))
step-ClosesAtEnd (fails into_a) r h = (ground (arith, h), ground (arith, h))
step-ClosesAtEnd (fails into_b) r h = (ground (arith, h), ground (arith, h))

pub relay-ClosesAtEnd : (es : List Event) (r : Relaying) → ClosesAtEnd r → ClosesAtEnd (relay es r)
unfolding relay
relay-ClosesAtEnd [] r h = h
relay-ClosesAtEnd (e ∷ es) r h = relay-ClosesAtEnd es (relay_step e r) (step-ClosesAtEnd e r h)

step_stays_done :
    (c : Copy) (e : Event) (r : Relaying)
    → copy_done c r ≡ true
    → copy_done c (relay_step e r) ≡ true
unfolding relay_step move end_copy close_write close_end
step_stays_done into_a (arrives into_a bytes) r h = ground (arith, h)
step_stays_done into_a (arrives into_b bytes) r h = ground (arith, h)
step_stays_done into_a (ends into_a) r h = ground (arith, h)
step_stays_done into_a (ends into_b) r h = ground (arith, h)
step_stays_done into_a (moves into_a m) r h = ground (arith, h)
step_stays_done into_a (moves into_b m) r h = ground (arith, h)
step_stays_done into_a (finishes into_a) r h = ground (arith, h)
step_stays_done into_a (finishes into_b) r h = ground (arith, h)
step_stays_done into_a (fails into_a) r h = ground (arith, h)
step_stays_done into_a (fails into_b) r h = ground (arith, h)
step_stays_done into_b (arrives into_a bytes) r h = ground (arith, h)
step_stays_done into_b (arrives into_b bytes) r h = ground (arith, h)
step_stays_done into_b (ends into_a) r h = ground (arith, h)
step_stays_done into_b (ends into_b) r h = ground (arith, h)
step_stays_done into_b (moves into_a m) r h = ground (arith, h)
step_stays_done into_b (moves into_b m) r h = ground (arith, h)
step_stays_done into_b (finishes into_a) r h = ground (arith, h)
step_stays_done into_b (finishes into_b) r h = ground (arith, h)
step_stays_done into_b (fails into_a) r h = ground (arith, h)
step_stays_done into_b (fails into_b) r h = ground (arith, h)

stays_done :
    (c : Copy) (es : List Event) (r : Relaying)
    → copy_done c r ≡ true
    → copy_done c (relay es r) ≡ true
unfolding relay
stays_done c [] r h = h
stays_done c (e ∷ es) r h = stays_done c es (relay_step e r) (step_stays_done c e r h)

pub relay_then : (es fs : List Event) (r : Relaying) → relay (es ++ fs) r ≡ relay fs (relay es r)
unfolding relay
relay_then [] fs r = refl
relay_then (e ∷ es) fs r = relay_then es fs (relay_step e r)

-- A turn of a copy that takes all that is left, and one that sees the end.
last_move :
    (c : Copy) (n : ℕ) (r : Relaying)
    → IsEnding c n r
    → ClosesAtEnd r
    → IsDrained c r
    → IsEnding c 0 (relay_step (moves c n) r)
unfolding relay_step move
last_move into_a n r h k d = (ground (arith, h), ground (arith, h, k, d, drop_all n r.b.incoming))
last_move into_b n r h k d = (ground (arith, h), ground (arith, h, k, d, drop_all n r.a.incoming))

last_finish :
    (c : Copy) (r : Relaying)
    → IsEnding c 0 r
    → ClosesAtEnd r
    → copy_done c (relay_step (finishes c) r) ≡ true
unfolding relay_step end_copy
last_finish into_a r h k = ground (arith, h, k)
last_finish into_b r h k = ground (arith, h, k)

-- Among the events a copy gets a turn that takes all that is left, and a later one that sees the
-- end; anything may come before, between and behind them.
pub record Turns (c : Copy) (r : Relaying) (es : List Event) : Type 0 where
  pub size : ℕ
  pub enough : length (source c r).incoming ≤ size
  pub front : List Event
  pub middle : List Event
  pub back : List Event
  pub splits : es ≡ front ++ moves c size ∷ (middle ++ finishes c ∷ back)

All_append_inv : (P : Event → Type 0) (xs ys : List Event) → All P (xs ++ ys) → All P xs × All P ys
All_append_inv P [] ys h = (tt, h)
All_append_inv P (x ∷ xs) ys h = let (l, r) = All_append_inv P xs ys h.1 in ((h.0, l), r)

Turns-done :
    (c : Copy) (es : List Event) (r : Relaying) (t : Turns c r es)
    → All (λ e. no_failure e ≡ true) es
    → (source c r).eof ≡ true
    → copy_done c r ≡ false
    → ClosesAtEnd r
    → copy_done c (relay es r) ≡ true
unfolding relay
Turns-done c es r t all ended running k =
    let sound = subst (All (λ e. no_failure e ≡ true)) t.splits all in
    let before = relay t.front r in
    let moved = relay_step (moves c t.size) before in
    let waiting = relay t.middle moved in
    let k1 = relay-ClosesAtEnd t.front r k in
    let k2 = relay-ClosesAtEnd t.middle moved (step-ClosesAtEnd (moves c t.size) before k1) in
    let drained =
      run-IsDrained c t.front r
        (All_append_inv _ t.front (moves c t.size ∷ (t.middle ++ finishes c ∷ t.back)) sound).0
        (λ d. ground (arith, running)) in
    let gone =
      last_move c t.size before (run-IsEnding c t.front t.size r (ended, t.enough)) k1 drained in
    let over = last_finish c waiting (run-IsEnding c t.middle 0 moved gone) k2 in
    rw t.splits (
      rw (relay_then t.front (moves c t.size ∷ (t.middle ++ finishes c ∷ t.back)) r) (
        rw (relay_then t.middle (finishes c ∷ t.back) moved)
          (stays_done c t.back (relay_step (finishes c) waiting) over)))

none_arrived : (c : Copy) (e : Event) (r : Relaying) → (source c r).eof ≡ true → arrived c e r ≡ []
none_arrived into_a (arrives into_a bytes) r h = ground (arith, h)
none_arrived into_a (arrives into_b bytes) r h = refl
none_arrived into_b (arrives into_a bytes) r h = refl
none_arrived into_b (arrives into_b bytes) r h = ground (arith, h)
none_arrived c (ends d) r h = refl
none_arrived c (moves d n) r h = refl
none_arrived c (finishes d) r h = refl
none_arrived c (fails d) r h = refl

none_received :
    (c : Copy) (es : List Event) (r : Relaying) → (source c r).eof ≡ true → received c es r ≡ []
unfolding received
none_received c [] r h = refl
none_received c (e ∷ es) r h =
    ap (λ (l : List ℕ). l ++ received c es (relay_step e r)) (none_arrived c e r h)
    ∙ none_received c es (relay_step e r)
        (step-IsEnding c e (length (source c r).incoming) r (h, omega arith)).0

-- A relay with both copies running and neither connection closed, whose peers have both ended: whatever the order of the events, if no read and no write fails, and each copy
-- gets a turn that takes all that is left and a later one that sees the end, the relay returns
-- with both connections closed, and each has been sent all that the other still had.
pub relay_returns :
    (es : List Event) (r : Relaying)
    → All (λ e. no_failure e ≡ true) es
    → (r.a.eof ≡ true) × (r.b.eof ≡ true)
    → (r.into_a_done ≡ false) × (r.into_b_done ≡ false)
    → (r.a.closed ≡ false) × (r.b.closed ≡ false)
    → Turns into_a r es
    → Turns into_b r es
    → let s = relay es r in
      (s.a.closed ≡ true)
      × (s.b.closed ≡ true)
      × (s.a.outgoing ≡ r.a.outgoing ++ r.b.incoming)
      × (s.b.outgoing ≡ r.b.outgoing ++ r.a.incoming)
relay_returns es r all (ea, eb) (da, db) (ca, cb) ta tb =
    let k : ClosesAtEnd r = (ground (arith), ground (arith)) in
    let a_done = Turns-done into_a es r ta all eb da k in
    let b_done = Turns-done into_b es r tb all ea db k in
    let (a_closed, b_closed) = relay-ClosesAtEnd es r k in
    (
      ground (arith, a_closed, a_done, b_done),
      ground (arith, b_closed, a_done, b_done),
      relay_delivers into_a es r all da a_done
          ∙ ap (λ (l : List ℕ). (r.a.outgoing ++ r.b.incoming) ++ l) (none_received into_a es r eb)
          ∙ append-nil (r.a.outgoing ++ r.b.incoming),
      relay_delivers into_b es r all db b_done
          ∙ ap (λ (l : List ℕ). (r.b.outgoing ++ r.a.incoming) ++ l) (none_received into_b es r ea)
          ∙ append-nil (r.b.outgoing ++ r.a.incoming),
    )

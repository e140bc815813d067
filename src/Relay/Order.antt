-- ===== src/Relay/Order.antt =====
-- go-core/relay/relay.go: what comes is what goes out, whatever the order of the steps.
use rathole_pro.Prelude.{
  ℕ, ◌≡◌, refl, sym, ap, ◌∙◌, arith, List, [], ◌∷◌, ◌++◌, append_assoc, append-nil, if◌then◌else◌,
  take, drop, take-append-drop,
}
use rathole_pro.Relay.{
  Copy, into_a, into_b, Relaying, Event, arrives, ends, moves, finishes, fails, move, close_write,
  close_end, end_copy, relay_step, relay, source, target,
}

-- What an event brings for a copy.
abbrev pub arrived : Copy → Event → Relaying → List ℕ
arrived into_a (arrives into_a bytes) r = if r.b.eof then [] else bytes
arrived into_b (arrives into_b bytes) r = if r.a.eof then [] else bytes
arrived into_a (arrives into_b bytes) r = []
arrived into_b (arrives into_a bytes) r = []
arrived c (ends d) r = []
arrived c (moves d n) r = []
arrived c (finishes d) r = []
arrived c (fails d) r = []

-- What comes for a copy in a run.
unfoldable pub received : Copy → List Event → Relaying → List ℕ
received c [] r = []
received c (e ∷ es) r = arrived c e r ++ received c es (relay_step e r)

-- What a copy has written and has yet to read.
abbrev pub line : Copy → Relaying → List ℕ
line c r = (target c r).outgoing ++ (source c r).incoming

move-line : (c d : Copy) (n : ℕ) (r : Relaying) → line c (move d n r) ≡ line c r
unfolding move
move-line into_a into_a n r = ground (
  arith,
  append_assoc r.a.outgoing (take n r.b.incoming) (drop n r.b.incoming),
  take-append-drop n r.b.incoming,
)
move-line into_a into_b n r = refl
move-line into_b into_a n r = refl
move-line into_b into_b n r = ground (
  arith,
  append_assoc r.b.outgoing (take n r.a.incoming) (drop n r.a.incoming),
  take-append-drop n r.a.incoming,
)

end_copy-line : (c d : Copy) (r : Relaying) → line c (end_copy d r) ≡ line c r
unfolding end_copy close_write close_end
end_copy-line into_a into_a r = ground arith
end_copy-line into_a into_b r = ground arith
end_copy-line into_b into_a r = ground arith
end_copy-line into_b into_b r = ground arith

pub relay_step-line :
    (c : Copy) (e : Event) (r : Relaying) → line c (relay_step e r) ≡ line c r ++ arrived c e r
unfolding relay_step
relay_step-line c (arrives into_a bytes) r =
    elim c
      as (λ c.
        line c (relay_step (arrives into_a bytes) r)
        ≡ line c r ++ arrived c (arrives into_a bytes) r) [
          | into_a ↦ ground (
            arith,
            append_assoc r.a.outgoing r.b.incoming bytes,
            append-nil (r.a.outgoing ++ r.b.incoming),
          )
          | into_b ↦ ground (arith, append-nil (r.b.outgoing ++ r.a.incoming))
        ]
relay_step-line c (arrives into_b bytes) r =
    elim c
      as (λ c.
        line c (relay_step (arrives into_b bytes) r)
        ≡ line c r ++ arrived c (arrives into_b bytes) r) [
          | into_a ↦ ground (arith, append-nil (r.a.outgoing ++ r.b.incoming))
          | into_b ↦ ground (
            arith,
            append_assoc r.b.outgoing r.a.incoming bytes,
            append-nil (r.b.outgoing ++ r.a.incoming),
          )
        ]
relay_step-line into_a (ends into_a) r = sym (append-nil _)
relay_step-line into_a (ends into_b) r = sym (append-nil _)
relay_step-line into_b (ends into_a) r = sym (append-nil _)
relay_step-line into_b (ends into_b) r = sym (append-nil _)
relay_step-line c (moves d n) r = ground (arith, move-line c d n r, append-nil (line c r))
relay_step-line c (finishes d) r = ground (arith, end_copy-line c d r, append-nil (line c r))
relay_step-line c (fails d) r = ground (arith, end_copy-line c d r, append-nil (line c r))

-- Whatever the order in which bytes come, pieces are moved and copies end or fail, what a copy
-- has written by the end of the run is, together with what it has yet to read, what it had
-- written and what was there before, followed by all that came for it, in order: a copy loses,
-- repeats and reorders nothing, and the other copy has no part in it.
pub relay-line :
    (c : Copy) (es : List Event) (r : Relaying) → line c (relay es r) ≡ line c r ++ received c es r
unfolding relay received
relay-line c [] r = sym (append-nil _)
relay-line c (e ∷ es) r =
    relay-line c es (relay_step e r)
    ∙ ap (λ l. l ++ received c es (relay_step e r)) (relay_step-line c e r)
    ∙ append_assoc (line c r) (arrived c e r) (received c es (relay_step e r))

-- ===== src/Relay/Closing.antt =====
-- When a relay closes its two connections.
use rathole_pro.Prelude.{◌≡◌, true, List, [], ◌∷◌, arith}
use rathole_pro.Relay.{
  Event, arrives, ends, moves, finishes, fails, Relaying, into_a, into_b, relay, relay_step, move,
  end_copy, close_write, close_end,
}

-- When both copies are done, both connections are closed.
abbrev pub ClosesBoth : Relaying → Type 0
ClosesBoth r =
    r.into_a_done ≡ true → r.into_b_done ≡ true → (r.a.closed ≡ true) × (r.b.closed ≡ true)

step-ClosesBoth : (e : Event) (r : Relaying) → ClosesBoth r → ClosesBoth (relay_step e r)
unfolding relay_step move end_copy close_write close_end
step-ClosesBoth (arrives into_a b) r h = ground (arith, h)
step-ClosesBoth (arrives into_b b) r h = ground (arith, h)
step-ClosesBoth (ends into_a) r h = ground (arith, h)
step-ClosesBoth (ends into_b) r h = ground (arith, h)
step-ClosesBoth (moves into_a n) r h = ground (arith, h)
step-ClosesBoth (moves into_b n) r h = ground (arith, h)
step-ClosesBoth (finishes into_a) r h = ground (arith, h)
step-ClosesBoth (finishes into_b) r h = ground (arith, h)
step-ClosesBoth (fails into_a) r h = ground (arith, h)
step-ClosesBoth (fails into_b) r h = ground (arith, h)

pub relay-ClosesBoth : (es : List Event) (r : Relaying) → ClosesBoth r → ClosesBoth (relay es r)
unfolding relay
relay-ClosesBoth [] r h = h
relay-ClosesBoth (e ∷ es) r h = relay-ClosesBoth es (relay_step e r) (step-ClosesBoth e r h)

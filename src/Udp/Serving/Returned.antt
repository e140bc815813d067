-- ===== src/Udp/Serving/Returned.antt =====
-- What `ServerUDP` does up to its return, and what no longer happens then.
use mathlib.Core.Path.{subst}
use rathole_pro.Prelude.{◌≡◌, ◌∙◌, refl, false, List, [], ◌∷◌, some, All, ◌⊎◌, inl, inr, arith}
use rathole_pro.Prelude.Exec.{Err}
use rathole_pro.Udp.{Forwarder, Event, datagram, frame, tick, on_tick, step, run}
use rathole_pro.Udp.Replies.{HasAddress}
use rathole_pro.Udp.Serving.{
  Serving, ServeEvent, round, socket_error, serve_round, serve_step, serve,
}

-- A datagram comes from an address with a text.
abbrev pub HasSource : ServeEvent → Type 0
HasSource (round e) = HasAddress e
HasSource socket_error = Unit {0}

-- One event after `ServerUDP` has returned.
round_returned :
    (e : Event) (s : Serving) (x : Err)
    → s.returned ≡ some x
    → let t = serve_round e s in
      (t.returned ≡ some x)
      × (t.forwarder.sent ≡ s.forwarder.sent)
      × (t.forwarder.stream ≡ s.forwarder.stream)
unfolding serve_round on_tick
round_returned (datagram addr payload now) s x h = (ground (arith), ground (arith), ground (arith))
round_returned frame s x h = (ground (arith), ground (arith), ground (arith))
round_returned (tick now) s x h = (h, refl, refl)

step_returned :
    (e : ServeEvent) (s : Serving) (x : Err)
    → s.returned ≡ some x
    → let t = serve_step e s in
      (t.returned ≡ some x)
      × (t.forwarder.sent ≡ s.forwarder.sent)
      × (t.forwarder.stream ≡ s.forwarder.stream)
unfolding serve_step
step_returned (round e) s x h = round_returned e s x h
step_returned socket_error s x h = (h, refl, refl)

-- Once `ServerUDP` has returned, whatever comes: no datagram goes out to a visitor, and nothing is
-- written on the stream or read from it.
pub serve_returned :
    (es : List ServeEvent) (s : Serving) (x : Err)
    → s.returned ≡ some x
    → let t = serve es s in
      (t.returned ≡ some x)
      × (t.forwarder.sent ≡ s.forwarder.sent)
      × (t.forwarder.stream ≡ s.forwarder.stream)
unfolding serve
serve_returned [] s x h = (h, refl, refl)
serve_returned (e ∷ es) s x h =
    let (r, a, b) = step_returned e s x h in
    let (r', a', b') = serve_returned es (serve_step e s) x r in (r', a' ∙ a, b' ∙ b)

-- What the loops have done is a run of the rounds that were made.
pub record Rounds (es : List ServeEvent) (f g : Forwarder) : Type 0 where
  pub made : List Event
  pub same : g ≡ run made f
  pub keeps : All HasSource es → All HasAddress made

Rounds-made :
    (e : Event) (es : List ServeEvent) (f g : Forwarder)
    → Rounds es (step e f) g
    → Rounds (round e ∷ es) f g
unfolding run
Rounds-made e es f g r = record {
  made = e ∷ r.made;
  same = r.same;
  keeps = λ h. (h.0, r.keeps h.1);
}

skip_round :
    (e : ServeEvent) (es : List ServeEvent) (f g : Forwarder) → Rounds es f g → Rounds (e ∷ es) f g
skip_round e es f g r = record { made = r.made; same = r.same; keeps = λ h. r.keeps h.1 }

round_cases :
    (e : Event) (s : Serving)
    → ((serve_round e s).forwarder ≡ step e s.forwarder)
      ⊎ ((serve_round e s).forwarder ≡ s.forwarder)
unfolding serve_round step
round_cases (datagram addr payload now) s = ground (arith)
round_cases frame s = ground (arith)
round_cases (tick now) s = inl refl

pub serve-Rounds :
    (es : List ServeEvent) (s : Serving) → Rounds es s.forwarder (serve es s).forwarder
unfolding serve serve_step run
serve-Rounds [] s = record { made = []; same = refl; keeps = λ h. tt }
serve-Rounds (socket_error ∷ es) s =
    skip_round socket_error es s.forwarder _ (serve-Rounds es (record s { reads_socket = false }))
serve-Rounds (round e ∷ es) s =
    let rest = serve-Rounds es (serve_round e s) in
    let end = (serve es (serve_round e s)).forwarder in
    elim (round_cases e s) [
      | inl stepped ↦ Rounds-made e es s.forwarder end (subst (λ f. Rounds es f end) stepped rest)
      | inr kept ↦ skip_round (round e) es s.forwarder end (subst (λ f. Rounds es f end) kept rest)
    ]

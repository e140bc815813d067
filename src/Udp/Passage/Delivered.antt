-- ===== src/Udp/Passage/Delivered.antt =====
-- `ClientUDP` behind a `ServerUDP`: what the local service is sent.
use rathole_pro.Prelude.{
  ℕ, suc, ◌≤◌, ◌≡◌, refl, ap, sym, ◌∙◌, true, false, ◌&&◌, List, [], ◌∷◌, ◌++◌, inl, inr,
  Option-cases, Bool-cases, none, append_assoc, append-nil, length, All, arith,
}
use rathole_pro.Net.{write}
use rathole_pro.Udp.{server_frame}
use rathole_pro.Udp.Local.{LocalForwarder, on_reply}
use rathole_pro.Udp.Local.Order.{Datagram, frames, payloads, IsSmall, no_frame, round_ok}
use rathole_pro.Udp.Local.Ends.{
  LocalServing, LocalEvent, stream_frame, reply, socket_error, local_step, local_serve,
}
use rathole_pro.Udp.Local.Ends.Kept.{local_serve_returned}

-- How often the goroutine of the stream gets its turn.
abbrev pub turns : List LocalEvent → ℕ
turns [] = 0
turns (stream_frame ∷ es) = suc (turns es)
turns (reply payload ∷ es) = turns es
turns (socket_error e ∷ es) = turns es

-- What the local service was sent are the payloads of the first of the datagrams, and of all of
-- them under this condition.
pub record Delivered (whole : Type 0) (ds : List Datagram) (before after : List (List ℕ))
    : Type 0 where
  pub taken : List Datagram
  pub others : List Datagram
  pub splits : ds ≡ taken ++ others
  pub sent : after ≡ before ++ payloads taken
  pub all_taken : whole → others ≡ []

on_reply_keeps :
    (payload : List ℕ) (f : LocalForwarder)
    → ((on_reply payload f).1.to_service ≡ f.to_service)
      × ((on_reply payload f).1.stream.closed ≡ f.stream.closed)
      × ((on_reply payload f).1.stream.incoming ≡ f.stream.incoming)
unfolding on_reply write
on_reply_keeps payload f = (ground (arith), ground (arith), ground (arith))

-- When the goroutine of the stream has ended.
stopped_step :
    (e : LocalEvent) (s : LocalServing)
    → s.reads_stream ≡ false
    → ((local_step e s).reads_stream ≡ false)
      × ((local_step e s).forwarder.to_service ≡ s.forwarder.to_service)
unfolding local_step
stopped_step stream_frame s h = (ground (arith), ground (arith))
stopped_step (reply payload) s h =
    (ground (arith), ground (arith, on_reply_keeps payload s.forwarder))
stopped_step (socket_error e) s h = (ground (arith), ground (arith))

local_serve_stopped :
    (es : List LocalEvent) (s : LocalServing)
    → s.reads_stream ≡ false
    → (local_serve es s).forwarder.to_service ≡ s.forwarder.to_service
unfolding local_serve
local_serve_stopped [] s h = refl
local_serve_stopped (e ∷ es) s h =
    let (h', same) = stopped_step e s h in local_serve_stopped es (local_step e s) h' ∙ same

pub nothing_sent :
    (whole : Type 0) (ds : List Datagram) (before after : List (List ℕ))
    → after ≡ before
    → (whole → ds ≡ [])
    → Delivered whole ds before after
nothing_sent whole ds before after same h = record {
  taken = [];
  others = ds;
  splits = refl;
  sent = same ∙ sym (append-nil before);
  all_taken = h;
}

pub sent_same :
    (whole whole' : Type 0) (ds : List Datagram) (before between after : List (List ℕ))
    → between ≡ before
    → (whole → whole')
    → Delivered whole' ds between after
    → Delivered whole ds before after
sent_same whole whole' ds before between after e h r = record {
  taken = r.taken;
  others = r.others;
  splits = r.splits;
  sent = r.sent ∙ ap (λ (l : List (List ℕ)). l ++ payloads r.taken) e;
  all_taken = λ w. r.all_taken (h w);
}

sent_one :
    (whole whole' : Type 0) (d : Datagram) (ds : List Datagram)
    (before between after : List (List ℕ))
    → between ≡ before ++ d.payload ∷ []
    → (whole → whole')
    → Delivered whole' ds between after
    → Delivered whole (d ∷ ds) before after
sent_one whole whole' d ds before between after e h r = record {
  taken = d ∷ r.taken;
  others = r.others;
  splits = ap (λ l. d ∷ l) r.splits;
  sent =
      r.sent
      ∙ ap (λ (l : List (List ℕ)). l ++ payloads r.taken) e
      ∙ append_assoc before (d.payload ∷ []) (payloads r.taken);
  all_taken = λ w. r.all_taken (h w);
}

-- The condition under which an end delivers all the datagrams.
abbrev pub Attended : List Datagram → List LocalEvent → LocalServing → Type 0
Attended ds es s =
    (length ds ≤ turns es) × (s.reads_stream ≡ true) × ((local_serve es s).returned ≡ none)

not_yet_returned :
    (es : List LocalEvent) (s : LocalServing)
    → (local_serve es s).returned ≡ none
    → s.returned ≡ none
not_yet_returned es s h = elim (Option-cases s.returned) [
  | inl e ↦ e
  | inr (x, e) ↦ ground (arith, local_serve_returned es s x e)
]

abbrev pub Leaves : List Datagram → List LocalEvent → LocalServing → Type 0
Leaves ds es s =
    Delivered (Attended ds es s) ds s.forwarder.to_service (local_serve es s).forwarder.to_service

abbrev pub Rest : List LocalEvent → Type 0
Rest es =
    (ds : List Datagram) (t : LocalServing)
    → All IsSmall ds
    → t.forwarder.stream.closed ≡ false
    → t.forwarder.stream.incoming ≡ frames ds
    → Leaves ds es t

abbrev fed : LocalForwarder → List ℕ → List (List ℕ) → LocalForwarder
fed f incoming more = record f {
  stream = record f.stream { incoming = incoming };
  to_service = f.to_service ++ more;
}

end_step :
    (s : LocalServing)
    → s.returned ≡ none
    → s.forwarder.stream.closed ≡ false
    → s.forwarder.stream.incoming ≡ []
    → ((local_step stream_frame s).forwarder.to_service ≡ s.forwarder.to_service)
      × ((local_step stream_frame s).reads_stream ≡ s.reads_stream && false)
unfolding local_step
end_step s h o e =
    (ground (arith, no_frame s.forwarder o e), ground (arith, no_frame s.forwarder o e))

frame_step :
    (d : Datagram) (rest : List ℕ) (s : LocalServing)
    → s.returned ≡ none
    → s.reads_stream ≡ true
    → IsSmall d
    → s.forwarder.stream.closed ≡ false
    → s.forwarder.stream.incoming ≡ server_frame d.addr d.payload ++ rest
    → local_step stream_frame s
      ≡ record s { forwarder = fed s.forwarder rest (d.payload ∷ []); reads_stream = true }
unfolding local_step
frame_step d rest s h live small o e = ground (arith, round_ok d rest s.forwarder small o e)

-- The first event, at an end that still reads the stream and has not returned.
first_event :
    (e : LocalEvent) (es : List LocalEvent) (ds : List Datagram) (s : LocalServing)
    → s.returned ≡ none
    → s.reads_stream ≡ true
    → All IsSmall ds
    → s.forwarder.stream.closed ≡ false
    → s.forwarder.stream.incoming ≡ frames ds
    → Rest es
    → Leaves ds (e ∷ es) s
unfolding local_serve
first_event stream_frame es [] s h live small o arrives rest =
    let (same, ended) = end_step s h o arrives in
    nothing_sent _ [] _ _
      (local_serve_stopped es (local_step stream_frame s) (ground (arith, ended)) ∙ same)
      (λ w. refl)
first_event stream_frame es (d ∷ ds) s h live small o arrives rest =
    let next = local_step stream_frame s in
    let stepped = frame_step d (frames ds) s h live small.0 o arrives in
    sent_one _ (Attended ds es next) d ds _ next.forwarder.to_service _
      (ap (λ (t : LocalServing). t.forwarder.to_service) stepped)
      (λ w. (omega (arith, w.0), ap (λ (t : LocalServing). t.reads_stream) stepped, w.2))
      (rest ds next small.1 (ap (λ (t : LocalServing). t.forwarder.stream.closed) stepped ∙ o)
        (ap (λ (t : LocalServing). t.forwarder.stream.incoming) stepped))
first_event (reply payload) es ds s h live small o arrives rest =
    let next = local_step (reply payload) s in
    let (a, b, c) = on_reply_keeps payload s.forwarder in
    let keeps : (next.forwarder.to_service ≡ s.forwarder.to_service)
        × (next.forwarder.stream.closed ≡ s.forwarder.stream.closed)
        × (next.forwarder.stream.incoming ≡ s.forwarder.stream.incoming)
        × (next.reads_stream ≡ s.reads_stream) =
      unfold local_step in
      (ground (arith, a), ground (arith, b), ground (arith, c), ground (arith)) in
    sent_same _ (Attended ds es next) ds _ next.forwarder.to_service _ keeps.0
      (λ w. (w.0, keeps.3 ∙ w.1, w.2)) (rest ds next small (keeps.1 ∙ o) (keeps.2 ∙ arrives))
first_event (socket_error x) es ds s h live small o arrives rest =
    let next = local_step (socket_error x) s in
    let keeps : (next.forwarder ≡ s.forwarder) × (next.reads_stream ≡ s.reads_stream) =
      unfold local_step in (ground (arith), ground (arith)) in
    sent_same _ (Attended ds es next) ds _ next.forwarder.to_service _
      (ap (λ (f : LocalForwarder). f.to_service) keeps.0) (λ w. (w.0, keeps.1 ∙ w.1, w.2))
      (rest ds next small (ap (λ (f : LocalForwarder). f.stream.closed) keeps.0 ∙ o)
        (ap (λ (f : LocalForwarder). f.stream.incoming) keeps.0 ∙ arrives))

pub local_serve-Delivered : (es : List LocalEvent) → Rest es
local_serve-Delivered [] ds s small o arrives =
    unfold local_serve in nothing_sent _ ds _ _ refl (λ w. ground (arith, w.0))
local_serve-Delivered (e ∷ es) ds s small o arrives = elim (Option-cases s.returned) [
  | inr (x, returned) ↦
      nothing_sent _ ds _ _ (local_serve_returned (e ∷ es) s x returned).1
        (λ w. ground (arith, not_yet_returned (e ∷ es) s w.2))
  | inl open_still ↦ elim (Bool-cases s.reads_stream) [
    | inl live ↦ first_event e es ds s open_still live small o arrives (local_serve-Delivered es)
    | inr stopped ↦
        nothing_sent _ ds _ _ (local_serve_stopped (e ∷ es) s stopped) (λ w. ground (arith, w.1))
  ]
]

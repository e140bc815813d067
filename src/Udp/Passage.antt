-- ===== src/Udp/Passage.antt =====
-- `ServerUDP` and `ClientUDP` at the two ends of a stream: what reaches the local service.
pub mod Delivered
pub mod Whole
use rathole_pro.Prelude.{
  ℕ, ◌+◌, ◌-◌, ◌≤◌, ◌<◌, ◌≡◌, refl, ap, sym, ◌∙◌, Bool, true, false, not, ◌&&◌, List, [], ◌∷◌, ◌++◌,
  ◌⊎◌, inl, inr, Option-cases, Bool-cases, Option, none, some, append_assoc, append-nil, length,
  length-append, All, arith,
}
use rathole_pro.Prelude.Exec.{Result, ok, err}
use rathole_pro.Net.{Conn, read_full, write}
use rathole_pro.Config.{is_some}
use rathole_pro.Udp.{
  Forwarder, server_frame, datagram, frame, tick, on_datagram, on_frame, on_tick, read_server_frame,
}
use rathole_pro.Net.Laws.{write_ok}
use rathole_pro.Udp.Serving.Returned.{serve_returned}
use rathole_pro.Udp.Serving.{
  Serving, ServeEvent, round, socket_error, serve_round, serve_step, serve, server_udp,
  new_forwarder,
}
use rathole_pro.Udp.Local.Order.{Datagram, frames, payloads, IsSmall, stream-on_datagram}

-- The datagrams among the events of `ServerUDP`.
abbrev pub came : List ServeEvent → List Datagram
came [] = []
came (round (datagram addr payload now) ∷ es) =
    record { addr = addr; payload = payload; at_time = now } ∷ came es
came (round frame ∷ es) = came es
came (round (tick now) ∷ es) = came es
came (socket_error ∷ es) = came es

-- Whether a datagram is still put in a frame.
abbrev is_live : Serving → Bool
is_live s = s.reads_socket && not (is_some s.returned)

-- Reading from the stream changes nothing of what is written on it.
on_frame_keeps :
    (f : Forwarder)
    → ((on_frame f).1.stream.outgoing ≡ f.stream.outgoing)
      × ((on_frame f).1.stream.room ≡ f.stream.room)
      × ((on_frame f).1.stream.closed ≡ f.stream.closed)
unfolding on_frame read_server_frame read_full
on_frame_keeps f = (ground (arith), ground (arith), ground (arith))

-- One event at an end that takes no more datagrams.
dead_step :
    (e : ServeEvent) (s : Serving)
    → is_live s ≡ false
    → (is_live (serve_step e s) ≡ false)
      × ((serve_step e s).forwarder.stream.outgoing ≡ s.forwarder.stream.outgoing)
unfolding serve_step serve_round on_tick
dead_step (round (datagram addr payload now)) s h = (ground (arith), ground (arith))
dead_step (round frame) s h = (ground (arith), ground (arith, on_frame_keeps s.forwarder))
dead_step (round (tick now)) s h = (h, refl)
dead_step socket_error s h = (refl, refl)

serve_dead :
    (es : List ServeEvent) (s : Serving)
    → is_live s ≡ false
    → (serve es s).forwarder.stream.outgoing ≡ s.forwarder.stream.outgoing
unfolding serve
serve_dead [] s h = refl
serve_dead (e ∷ es) s h =
    let (h', same) = dead_step e s h in serve_dead es (serve_step e s) h' ∙ same

-- No error of the socket among the events.
abbrev pub IsRound : ServeEvent → Type 0
IsRound (round e) = Unit {0}
IsRound socket_error = ⊥

-- The frames that an end has written are those of the first of the datagrams that came, and of all
-- of them under this condition.
pub record Framed (whole : Type 0) (ds : List Datagram) (before after : List ℕ) : Type 0 where
  pub taken : List Datagram
  pub others : List Datagram
  pub splits : ds ≡ taken ++ others
  pub written : after ≡ before ++ frames taken
  pub all_taken : whole → others ≡ []

pub nothing_written :
    (whole : Type 0) (ds : List Datagram) (before after : List ℕ)
    → after ≡ before
    → (whole → ds ≡ [])
    → Framed whole ds before after
nothing_written whole ds before after same h = record {
  taken = [];
  others = ds;
  splits = refl;
  written = same ∙ sym (append-nil before);
  all_taken = h;
}

written_one :
    (whole whole' : Type 0) (d : Datagram) (ds : List Datagram) (before between after : List ℕ)
    → between ≡ before ++ server_frame d.addr d.payload
    → (whole → whole')
    → Framed whole' ds between after
    → Framed whole (d ∷ ds) before after
written_one whole whole' d ds before between after e h r = record {
  taken = d ∷ r.taken;
  others = r.others;
  splits = ap (λ l. d ∷ l) r.splits;
  written =
      r.written
      ∙ ap (λ (l : List ℕ). l ++ frames r.taken) e
      ∙ append_assoc before (server_frame d.addr d.payload) (frames r.taken);
  all_taken = λ w. r.all_taken (h w);
}

-- The condition under which an end frames all the datagrams.
abbrev pub Untroubled : List ServeEvent → Serving → Type 0
Untroubled es s = All IsRound es × (s.reads_socket ≡ true) × ((serve es s).returned ≡ none)

-- An end that has not returned had not returned before.
not_yet_returned :
    (es : List ServeEvent) (s : Serving) → (serve es s).returned ≡ none → s.returned ≡ none
not_yet_returned es s h = elim (Option-cases s.returned) [
  | inl e ↦ e
  | inr (x, e) ↦ ground (arith, serve_returned es s x e)
]

datagram_step :
    (d : Datagram) (s : Serving)
    → is_live s ≡ true
    → s.forwarder.stream.closed ≡ false
    → length (server_frame d.addr d.payload) ≤ s.forwarder.stream.room
    → serve_round (datagram d.addr d.payload d.at_time) s ≡ record s {
      forwarder = (on_datagram d.addr d.payload d.at_time s.forwarder).1;
      reads_socket = true;
    }
unfolding serve_round on_datagram
datagram_step d s h o room =
    ground (arith, write_ok (server_frame d.addr d.payload) s.forwarder.stream o room)

pub written_same :
    (whole whole' : Type 0) (ds : List Datagram) (before between after : List ℕ)
    → between ≡ before
    → (whole → whole')
    → Framed whole' ds between after
    → Framed whole ds before after
written_same whole whole' ds before between after e h r = record {
  taken = r.taken;
  others = r.others;
  splits = r.splits;
  written = r.written ∙ ap (λ (l : List ℕ). l ++ frames r.taken) e;
  all_taken = λ w. r.all_taken (h w);
}

-- What the events leave written.
abbrev Leaves : List ServeEvent → Serving → Type 0
Leaves es s =
    Framed (Untroubled es s) (came es) s.forwarder.stream.outgoing
      (serve es s).forwarder.stream.outgoing

-- The first event, at an end that still takes datagrams.
first_event :
    (e : ServeEvent) (es : List ServeEvent) (s : Serving)
    → is_live s ≡ true
    → s.forwarder.stream.closed ≡ false
    → length (frames (came (e ∷ es))) ≤ s.forwarder.stream.room
    → ((t : Serving)
        → t.forwarder.stream.closed ≡ false
        → length (frames (came es)) ≤ t.forwarder.stream.room
        → Leaves es t)
    → Leaves (e ∷ es) s
unfolding serve serve_step
first_event (round (datagram addr payload now)) es s live o room rest =
    let d : Datagram = record { addr = addr; payload = payload; at_time = now } in
    let split = length-append (server_frame addr payload) (frames (came es)) in
    let fits : length (server_frame addr payload) ≤ s.forwarder.stream.room =
      omega (arith, split, room) in
    let same = stream-on_datagram addr payload now s.forwarder o fits in
    let next = serve_round (datagram addr payload now) s in
    let stepped = datagram_step d s live o fits in
    let stream = ap (λ (t : Serving). t.forwarder.stream) stepped ∙ same in
    written_one _ (Untroubled es next) d (came es) _ next.forwarder.stream.outgoing _
      (ap (λ (c : Conn). c.outgoing) stream)
      (λ w. (w.0.1, ap (λ (t : Serving). t.reads_socket) stepped, w.2))
      (rest next (ap (λ (c : Conn). c.closed) stream ∙ o)
        (omega (arith, split, ap (λ (c : Conn). c.room) stream, room)))
first_event (round frame) es s live o room rest =
    let (a, b, c) = on_frame_keeps s.forwarder in
    let next = serve_round frame s in
    let stream : (next.forwarder.stream.outgoing ≡ s.forwarder.stream.outgoing)
        × (next.forwarder.stream.room ≡ s.forwarder.stream.room)
        × (next.forwarder.stream.closed ≡ s.forwarder.stream.closed)
        × (next.reads_socket ≡ s.reads_socket) =
      unfold serve_round in
      (ground (arith, a), ground (arith, b), ground (arith, c), ground (arith)) in
    written_same _ (Untroubled es next) _ _ next.forwarder.stream.outgoing _ stream.0
      (λ w. (w.0.1, stream.3 ∙ w.1, w.2)) (rest next (stream.2 ∙ o) (omega (arith, stream.1, room)))
first_event (round (tick now)) es s live o room rest =
    let next = serve_round (tick now) s in
    unfold serve_round on_tick in
    written_same _ (Untroubled es next) _ _ next.forwarder.stream.outgoing _ refl
      (λ w. (w.0.1, w.1, w.2)) (rest next o room)
first_event socket_error es s live o room rest =
    nothing_written _ _ _ _ (serve_dead es (record s { reads_socket = false }) refl)
      (λ w. elim w.0.0 [ ])

pub serve-Framed :
    (es : List ServeEvent) (s : Serving)
    → s.forwarder.stream.closed ≡ false
    → length (frames (came es)) ≤ s.forwarder.stream.room
    → Leaves es s
serve-Framed [] s o room = unfold serve in nothing_written _ [] _ _ refl (λ w. refl)
serve-Framed (e ∷ es) s o room = elim (Bool-cases (is_live s)) [
  | inl live ↦ first_event e es s live o room (serve-Framed es)
  | inr dead ↦
      nothing_written _ _ _ _ (serve_dead (e ∷ es) s dead)
        (λ w. ground (arith, not_yet_returned (e ∷ es) s w.2))
]

-- ===== src/Service/Tunnel/Link.antt =====
-- What the two relays write, and what is on the way between them.
use rathole_pro.Prelude.{
  ℕ, ◌≡◌, refl, ap, sym, ◌∙◌, arith, Bool, true, false, ◌&&◌, List, [], ◌∷◌, ◌++◌, append_assoc,
  append-nil, if◌then◌else◌, take, drop, take-append-drop,
}
use rathole_pro.Relay.{
  Copy, into_a, into_b, Relaying, Event, arrives, ends, moves, finishes, fails, move, close_write,
  close_end, end_copy, relay_step, source, target, is_nil,
}
use rathole_pro.Relay.Order.{arrived, line, relay_step-line}
use rathole_pro.Service.Tunnel.{
  Tunnel, Work, move_piece, finish, fail, event_of, TunnelEvent, visitor_sends, service_sends,
  visitor_ends, service_ends, server_copy, client_copy, carries_up, carries_down, ends_up,
  ends_down, written, server_does, client_does, tunnel_step, tunnel,
}

step_writes :
    (c : Copy) (e : Event) (r : Relaying)
    → (target c (relay_step e r)).outgoing ≡ (target c r).outgoing ++ written c e r
unfolding relay_step move end_copy close_write close_end
step_writes into_a (arrives into_a bytes) r = ground (arith, append-nil r.a.outgoing)
step_writes into_a (arrives into_b bytes) r = ground (arith, append-nil r.a.outgoing)
step_writes into_a (ends into_a) r = ground (arith, append-nil r.a.outgoing)
step_writes into_a (ends into_b) r = ground (arith, append-nil r.a.outgoing)
step_writes into_a (moves into_a n) r = ground (arith, append-nil r.a.outgoing)
step_writes into_a (moves into_b n) r = ground (arith, append-nil r.a.outgoing)
step_writes into_a (finishes into_a) r = ground (arith, append-nil r.a.outgoing)
step_writes into_a (finishes into_b) r = ground (arith, append-nil r.a.outgoing)
step_writes into_a (fails into_a) r = ground (arith, append-nil r.a.outgoing)
step_writes into_a (fails into_b) r = ground (arith, append-nil r.a.outgoing)
step_writes into_b (arrives into_a bytes) r = ground (arith, append-nil r.b.outgoing)
step_writes into_b (arrives into_b bytes) r = ground (arith, append-nil r.b.outgoing)
step_writes into_b (ends into_a) r = ground (arith, append-nil r.b.outgoing)
step_writes into_b (ends into_b) r = ground (arith, append-nil r.b.outgoing)
step_writes into_b (moves into_a n) r = ground (arith, append-nil r.b.outgoing)
step_writes into_b (moves into_b n) r = ground (arith, append-nil r.b.outgoing)
step_writes into_b (finishes into_a) r = ground (arith, append-nil r.b.outgoing)
step_writes into_b (finishes into_b) r = ground (arith, append-nil r.b.outgoing)
step_writes into_b (fails into_a) r = ground (arith, append-nil r.b.outgoing)
step_writes into_b (fails into_b) r = ground (arith, append-nil r.b.outgoing)

-- From the relay that writes, through what is on the way, to the relay that reads: nothing is lost,
-- repeated or reordered.
abbrev pub IsLinked : Copy → List ℕ → Relaying → Relaying → List ℕ → Type 0
IsLinked c base writer reader way = line c reader ++ way ≡ base ++ (target c writer).outgoing

writer_steps :
    (c : Copy) (base : List ℕ) (e : Event) (w r : Relaying) (way : List ℕ)
    → IsLinked c base w r way
    → IsLinked c base (relay_step e w) r (way ++ written c e w)
writer_steps c base e w r way h =
    sym (append_assoc (line c r) way (written c e w))
    ∙ ap (λ (l : List ℕ). l ++ written c e w) h
    ∙ append_assoc base (target c w).outgoing (written c e w)
    ∙ ap (λ (l : List ℕ). base ++ l) (sym (step_writes c e w))

reader_steps :
    (c : Copy) (base : List ℕ) (e : Event) (w r : Relaying) (way : List ℕ)
    → arrived c e r ≡ []
    → IsLinked c base w r way
    → IsLinked c base w (relay_step e r) way
reader_steps c base e w r way none h =
    ap (λ (l : List ℕ). l ++ way)
      (relay_step-line c e r ∙ ap (λ (l : List ℕ). line c r ++ l) none ∙ append-nil (line c r))
    ∙ h

arrived_open :
    (c : Copy) (bytes : List ℕ) (r : Relaying)
    → (source c r).eof ≡ false
    → arrived c (arrives c bytes) r ≡ bytes
arrived_open into_a bytes r h = ground (arith, h)
arrived_open into_b bytes r h = ground (arith, h)

carried :
    (c : Copy) (base : List ℕ) (n : ℕ) (w r : Relaying) (way : List ℕ)
    → (source c r).eof ≡ false
    → IsLinked c base w r way
    → IsLinked c base w (relay_step (arrives c (take n way)) r) (drop n way)
carried c base n w r way open_still h =
    ap (λ (l : List ℕ). l ++ drop n way)
      (relay_step-line c (arrives c (take n way)) r
        ∙ ap (λ (l : List ℕ). line c r ++ l) (arrived_open c (take n way) r open_still))
    ∙ append_assoc (line c r) (take n way) (drop n way)
    ∙ ap (λ (l : List ℕ). line c r ++ l) (take-append-drop n way)
    ∙ h

-- Both directions of the stream.
abbrev pub AreLinked : List ℕ → List ℕ → Tunnel → Type 0
AreLinked to_service to_visitor t =
    IsLinked into_b to_service t.server t.client t.up
    × IsLinked into_a to_visitor t.client t.server t.down

server_steps :
    (x y : List ℕ) (e : Event) (t : Tunnel)
    → arrived into_a e t.server ≡ []
    → AreLinked x y t
    → AreLinked x y (server_does e t)
server_steps x y e t none (up, down) = (
  writer_steps into_b x e t.server t.client t.up up,
  reader_steps into_a y e t.client t.server t.down none down,
)

client_steps :
    (x y : List ℕ) (e : Event) (t : Tunnel)
    → arrived into_b e t.client ≡ []
    → AreLinked x y t
    → AreLinked x y (client_does e t)
client_steps x y e t none (up, down) = (
  reader_steps into_b x e t.server t.client t.up none up,
  writer_steps into_a y e t.client t.server t.down down,
)

no_arrival : (c d : Copy) (w : Work) (r : Relaying) → arrived c (event_of d w) r ≡ []
no_arrival c d (move_piece n) r = refl
no_arrival c d finish r = refl
no_arrival c d fail r = refl

-- A property of both branches.
pub on_if {ℓ} :
    {A : Type 0} (P : A → Type ℓ) (b : Bool) (x y : A)
    → (b ≡ true → P x)
    → (b ≡ false → P y)
    → P (if b then x else y)
on_if P true x y h k = h refl
on_if P false x y h k = k refl

step_linked :
    (x y : List ℕ) (e : TunnelEvent) (t : Tunnel)
    → AreLinked x y t
    → AreLinked x y (tunnel_step e t)
unfolding tunnel_step
step_linked x y (visitor_sends bytes) t h = server_steps x y (arrives into_b bytes) t refl h
step_linked x y (service_sends bytes) t h = client_steps x y (arrives into_a bytes) t refl h
step_linked x y visitor_ends t h = server_steps x y (ends into_b) t refl h
step_linked x y service_ends t h = client_steps x y (ends into_a) t refl h
step_linked x y (server_copy c w) t h =
    server_steps x y (event_of c w) t (no_arrival into_a c w t.server) h
step_linked x y (client_copy c w) t h =
    client_steps x y (event_of c w) t (no_arrival into_b c w t.client) h
step_linked x y (carries_up n) t (up, down) =
    on_if (AreLinked x y) t.client.a.eof t _ (λ ended. (up, down))
      (λ open_still. (
        carried into_b x n t.server t.client t.up open_still up,
        writer_steps into_a y (arrives into_b (take n t.up)) t.client t.server t.down down,
      ))
step_linked x y (carries_down n) t (up, down) =
    on_if (AreLinked x y) t.server.b.eof t _ (λ ended. (up, down))
      (λ open_still. (
        writer_steps into_b x (arrives into_a (take n t.down)) t.server t.client t.up up,
        carried into_a y n t.client t.server t.down open_still down,
      ))
step_linked x y ends_up t h =
    on_if (AreLinked x y) (t.server.b.closed && is_nil t.up) _ t
      (λ over. client_steps x y (ends into_b) t refl h) (λ no_end. h)
step_linked x y ends_down t h =
    on_if (AreLinked x y) (t.client.a.closed && is_nil t.down) _ t
      (λ over. server_steps x y (ends into_a) t refl h) (λ no_end. h)

pub tunnel-AreLinked :
    (x y : List ℕ) (es : List TunnelEvent) (t : Tunnel)
    → AreLinked x y t
    → AreLinked x y (tunnel es t)
unfolding tunnel
tunnel-AreLinked x y [] t h = h
tunnel-AreLinked x y (e ∷ es) t h =
    tunnel-AreLinked x y es (tunnel_step e t) (step_linked x y e t h)

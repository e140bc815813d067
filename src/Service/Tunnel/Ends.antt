-- ===== src/Service/Tunnel/Ends.antt =====
-- The relay at each end of a tunnel, by the events that reach it.
use rathole_pro.Prelude.{
  ℕ, ◌≡◌, refl, ap, sym, ◌∙◌, Bool, true, false, ◌&&◌, List, [], ◌∷◌, ◌++◌, if◌then◌else◌,
  append_assoc,
}
use rathole_pro.Relay.{into_a, into_b, Event, ends, relay, is_nil}
use rathole_pro.Relay.Returns.{relay_then}
use rathole_pro.Service.Tunnel.{
  Tunnel, TunnelEvent, visitor_sends, service_sends, visitor_ends, service_ends, server_copy,
  client_copy, carries_up, carries_down, ends_up, ends_down, server_does, client_does, tunnel_step,
  tunnel, at_server, at_client, server_events, client_events,
}
use rathole_pro.Service.Tunnel.Link.{on_if}

-- A property of two tests of the same Boolean.
on_both :
    {A : Type 0} (P : A → List Event → Type 0) (b : Bool) (x y : A) (es fs : List Event)
    → P x es
    → P y fs
    → P (if b then x else y) (if b then es else fs)
on_both P true x y es fs h k = h
on_both P false x y es fs h k = k

step_server :
    (e : TunnelEvent) (t : Tunnel) → (tunnel_step e t).server ≡ relay (at_server e t) t.server
unfolding tunnel_step relay
step_server (visitor_sends bytes) t = refl
step_server (service_sends bytes) t = refl
step_server visitor_ends t = refl
step_server service_ends t = refl
step_server (server_copy c w) t = refl
step_server (client_copy c w) t = refl
step_server (carries_up n) t =
    on_if (λ (u : Tunnel). u.server ≡ t.server) t.client.a.eof t _ (λ e. refl) (λ e. refl)
step_server (carries_down n) t =
    on_both (λ (u : Tunnel) es. u.server ≡ relay es t.server) t.server.b.eof t _ [] _ refl refl
step_server ends_up t =
    on_if (λ (u : Tunnel). u.server ≡ t.server) (t.server.b.closed && is_nil t.up)
      (client_does (ends into_b) t) t (λ e. refl) (λ e. refl)
step_server ends_down t =
    on_both (λ (u : Tunnel) es. u.server ≡ relay es t.server) (t.client.a.closed && is_nil t.down)
      (server_does (ends into_a) t) t _ [] refl refl

step_client :
    (e : TunnelEvent) (t : Tunnel) → (tunnel_step e t).client ≡ relay (at_client e t) t.client
unfolding tunnel_step relay
step_client (visitor_sends bytes) t = refl
step_client (service_sends bytes) t = refl
step_client visitor_ends t = refl
step_client service_ends t = refl
step_client (server_copy c w) t = refl
step_client (client_copy c w) t = refl
step_client (carries_up n) t =
    on_both (λ (u : Tunnel) es. u.client ≡ relay es t.client) t.client.a.eof t _ [] _ refl refl
step_client (carries_down n) t =
    on_if (λ (u : Tunnel). u.client ≡ t.client) t.server.b.eof t _ (λ e. refl) (λ e. refl)
step_client ends_up t =
    on_both (λ (u : Tunnel) es. u.client ≡ relay es t.client) (t.server.b.closed && is_nil t.up)
      (client_does (ends into_b) t) t _ [] refl refl
step_client ends_down t =
    on_if (λ (u : Tunnel). u.client ≡ t.client) (t.client.a.closed && is_nil t.down)
      (server_does (ends into_a) t) t (λ e. refl) (λ e. refl)

pub tunnel-server_events :
    (es : List TunnelEvent) (t : Tunnel)
    → (tunnel es t).server ≡ relay (server_events es t) t.server
unfolding tunnel server_events
tunnel-server_events [] t = unfold relay in refl
tunnel-server_events (e ∷ es) t =
    tunnel-server_events es (tunnel_step e t)
    ∙ ap (relay (server_events es (tunnel_step e t))) (step_server e t)
    ∙ sym (relay_then (at_server e t) (server_events es (tunnel_step e t)) t.server)

pub tunnel-client_events :
    (es : List TunnelEvent) (t : Tunnel)
    → (tunnel es t).client ≡ relay (client_events es t) t.client
unfolding tunnel client_events
tunnel-client_events [] t = unfold relay in refl
tunnel-client_events (e ∷ es) t =
    tunnel-client_events es (tunnel_step e t)
    ∙ ap (relay (client_events es (tunnel_step e t))) (step_client e t)
    ∙ sym (relay_then (at_client e t) (client_events es (tunnel_step e t)) t.client)

-- What is at the one end, on the way, and still to be read at the other end.
pub chain :
    (o i way rest base mid all : List ℕ)
    → (o ++ i) ++ way ≡ base ++ mid
    → mid ++ rest ≡ all
    → o ++ (i ++ (way ++ rest)) ≡ base ++ all
chain o i way rest base mid all h k =
    sym (append_assoc o i (way ++ rest))
    ∙ sym (append_assoc (o ++ i) way rest)
    ∙ ap (λ (l : List ℕ). l ++ rest) h
    ∙ append_assoc base mid rest
    ∙ ap (λ (l : List ℕ). base ++ l) k

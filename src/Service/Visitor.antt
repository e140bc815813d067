-- ===== src/Service/Visitor.antt =====
-- What passes between a visitor and the local service.
use mathlib.Core.Path.{subst}
use rathole_pro.Prelude.{
  ℕ, ◌≡◌, ◌≢◌, ◌∙◌, refl, ◌⊎◌, ap, sym, append-nil, String, Bool, true, false, List, [], ◌∷◌, ◌++◌,
  some, All, eq_iff, arith,
}
use rathole_pro.Prelude.Exec.{Result, ok}
use rathole_pro.Net.{Conn}
use rathole_pro.Relay.{into_a, into_b}
use rathole_pro.Relay.Order.{received, line, relay-line}
use rathole_pro.Relay.Returns.{ClosesAtEnd, relay-ClosesAtEnd}
use rathole_pro.Service.Tunnel.{Tunnel, TunnelEvent, tunnel, server_events, client_events}
use rathole_pro.Service.Tunnel.Link.{tunnel-AreLinked}
use rathole_pro.Service.Tunnel.Hangs.{Hangs, has_failure, tunnel-Hangs}
use rathole_pro.Service.Tunnel.Ends.{tunnel-server_events, tunnel-client_events, chain}
use rathole_pro.Server.Pool.{SessionPool, pick_loop, pick}
use rathole_pro.Server.Auth.{relayed, handle_visitor}
use rathole_pro.Server.Run.Waiting.{pick_loop_first}
use rathole_pro.Client.Session.{handle_tcp_stream}
use rathole_pro.Service.{server_start, client_start, serve_visitor, forward_stream}

-- The two relays at their start, with a stream on which nothing has been sent.
abbrev pub started : Conn → Conn → Conn → Conn → Tunnel
started visitor opened accepted local = record {
  server = server_start visitor opened;
  client = client_start accepted local;
  up = [];
  down = [];
}

-- A stream that yamux has just opened, and its other end.
pub record IsNew (opened accepted : Conn) : Type 0 where
  pub opened_new : (opened.incoming ≡ []) × (opened.outgoing ≡ []) × (opened.closed ≡ false)
  pub accepted_new : (accepted.incoming ≡ []) × (accepted.outgoing ≡ []) × (accepted.closed ≡ false)

-- What has been sent to the service, and what is on the way to it: in the client's end of the
-- stream, in the stream, and at the visitor's connection; the same of the way back. Each relay has
-- closed its two connections when both of its copies are done, and not before. Some copy has
-- failed, or both relays hang: each waits for the other's end of the stream.
pub record Passes (rs : List TunnelEvent) (start t : Tunnel) (visitor local : Conn) : Type 0 where
  pub to_service :
      t.client.b.outgoing ++ (t.client.a.incoming ++ (t.up ++ t.server.a.incoming))
      ≡ local.outgoing
        ++ (visitor.incoming ++ received into_b (server_events rs start) start.server)
  pub to_visitor :
      t.server.a.outgoing ++ (t.server.b.incoming ++ (t.down ++ t.client.b.incoming))
      ≡ visitor.outgoing
        ++ (local.incoming ++ received into_a (client_events rs start) start.client)
  pub server_closes : ClosesAtEnd t.server
  pub client_closes : ClosesAtEnd t.client
  pub waits : (has_failure rs ≡ true) ⊎ Hangs t

tunnel-Passes :
    (rs : List TunnelEvent) (visitor opened accepted local : Conn)
    → IsNew opened accepted
    → visitor.closed ≡ false
    → local.closed ≡ false
    → let start = started visitor opened accepted local in
      Passes rs start (tunnel rs start) visitor local
tunnel-Passes rs visitor opened accepted local new vo lo =
    let start = started visitor opened accepted local in
    let t = tunnel rs start in
    let es = server_events rs start in
    let fs = client_events rs start in
    let at_s = tunnel-server_events rs start in
    let at_c = tunnel-client_events rs start in
    let (up, down) = tunnel-AreLinked local.outgoing visitor.outgoing rs start (
      ground (arith, new.opened_new, new.accepted_new, append-nil local.outgoing),
      ground (arith, new.opened_new, new.accepted_new, append-nil visitor.outgoing),
    ) in
    record {
      to_service =
          chain t.client.b.outgoing t.client.a.incoming t.up t.server.a.incoming local.outgoing
            t.server.b.outgoing _ up
            (ap (line into_b) at_s
              ∙ relay-line into_b es start.server
              ∙ ap (λ (l : List ℕ). (l ++ visitor.incoming) ++ received into_b es start.server)
                  new.opened_new.1);
      to_visitor =
          chain t.server.a.outgoing t.server.b.incoming t.down t.client.b.incoming visitor.outgoing
            t.client.a.outgoing _ down
            (ap (line into_a) at_c
              ∙ relay-line into_a fs start.client
              ∙ ap (λ (l : List ℕ). (l ++ local.incoming) ++ received into_a fs start.client)
                  new.accepted_new.1);
      server_closes =
          subst ClosesAtEnd (sym at_s) (relay-ClosesAtEnd es start.server (vo, new.opened_new.2));
      client_closes =
          subst ClosesAtEnd (sym at_c) (relay-ClosesAtEnd fs start.client (new.accepted_new.2, lo));
      waits =
          tunnel-Hangs rs start
            (refl, refl, refl, refl, vo, new.opened_new.2, new.accepted_new.2, lo);
    }

handle_visitor-relayed :
    (is_closed closed_later : ℕ → Bool) (open_stream : ℕ → Result ℕ) (visitor : Conn)
    (pool : SessionPool) (rest : List ℕ) (s stream : ℕ)
    → pick_loop is_closed pool.sessions ≡ (some s, rest ++ s ∷ [])
    → open_stream s ≡ ok stream
    → handle_visitor is_closed closed_later open_stream visitor pool ≡ record {
      visit = relayed s stream;
      visitor = visitor;
      pool = record { sessions = rest ++ s ∷ [] };
    }
unfolding handle_visitor pick
handle_visitor-relayed is_closed closed_later open_stream visitor pool rest s stream first opens =
    ground (arith)

module _ (is_closed closed_later : ℕ → Bool) (open_stream : ℕ → Result ℕ) (stream_of : ℕ → Conn)
    (dial : String → Result Conn) (rs : List TunnelEvent) (visitor accepted local : Conn)
    (local_addr : String) where
  -- The first live session of the pool opens a stream, which is new, and the client of that session
  -- has a local address that can be reached; the visitor and the local connection are open. Then,
  -- whatever comes and in whatever order the copies of the two relays and the stream between them
  -- go on, end or fail: what the local service has been sent, followed by what is still on the way
  -- to it, is what came from the visitor, and the same of the way back, in order and nothing else;
  -- each relay has closed its two connections when both of its copies are done and not before;
  -- while no copy has failed, neither relay has closed anything, even if both peers have ended,
  -- since each waits for the other to close the stream; and the session is at the back of the pool.
  pub serve_visitor-forward_stream :
      (pool : SessionPool) (dead rest : List ℕ) (s stream : ℕ)
      → pool.sessions ≡ dead ++ s ∷ rest
      → All (λ x. is_closed x ≡ true) dead
      → is_closed s ≡ false
      → open_stream s ≡ ok stream
      → local_addr ≢ ""
      → dial local_addr ≡ ok local
      → IsNew (stream_of stream) accepted
      → (visitor.closed ≡ false) × (local.closed ≡ false)
      → let start = started visitor (stream_of stream) accepted local in
        let t = tunnel rs start in
        let v =
          serve_visitor is_closed closed_later open_stream stream_of
            (server_events rs start)
            visitor
            pool in
        (v.1 ≡ some t.server)
        × ((forward_stream dial (client_events rs start) local_addr accepted).1 ≡ some t.client)
        × Passes rs start t visitor local
        × (v.0.pool.sessions ≡ rest ++ s ∷ [])
  unfolding serve_visitor forward_stream handle_tcp_stream
  serve_visitor-forward_stream pool dead rest s stream split gone alive opens set up new
        (visitor_open, local_open) =
      let start = started visitor (stream_of stream) accepted local in
      let first : pick_loop is_closed pool.sessions ≡ (some s, rest ++ s ∷ []) =
        ap (pick_loop is_closed) split ∙ pick_loop_first is_closed dead s rest gone alive in
      let v =
        handle_visitor-relayed is_closed closed_later open_stream visitor pool rest s stream first
          opens in
      (
        rw v (ap some (sym (tunnel-server_events rs start))),
        ground (arith, eq_iff local_addr "", up, tunnel-client_events rs start),
        tunnel-Passes rs visitor (stream_of stream) accepted local new visitor_open local_open,
        rw v refl,
      )

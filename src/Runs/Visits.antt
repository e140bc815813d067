-- ===== src/Runs/Visits.antt =====
-- A visitor that is passed on to the local service, which answers.
use rathole_pro.Prelude.{
  ℕ, ◌≡◌, ◌≢◌, refl, String, Bool, true, false, List, [], ◌∷◌, ◌==◌, some, eq_iff, arith,
}
use rathole_pro.Prelude.Exec.{Result, ok}
use rathole_pro.Net.{Conn}
use rathole_pro.Relay.{into_a, into_b, move, end_copy, close_write, close_end, relay_step}
use rathole_pro.Server.Pool.{SessionPool}
use rathole_pro.Service.Tunnel.{
  Tunnel, TunnelEvent, visitor_sends, visitor_ends, service_sends, server_copy, client_copy,
  carries_up, carries_down, ends_up, move_piece, finish, fail, tunnel, tunnel_step, server_events,
  client_events,
}
use rathole_pro.Service.{serve_visitor, forward_stream}
use rathole_pro.Service.Visitor.{started, Passes, serve_visitor-forward_stream}

abbrev conn_of : List ℕ → Conn
conn_of incoming = record { incoming = incoming; outgoing = []; room = 50; closed = false }

-- Both sides speak, the visitor ends, and its connection fails at the next write.
abbrev rs : List TunnelEvent
rs =
    visitor_sends (2 ∷ [])
    ∷ server_copy into_b (move_piece 9)
    ∷ carries_up 1
    ∷ client_copy into_b (move_piece 9)
    ∷ service_sends (8 ∷ [])
    ∷ client_copy into_a (move_piece 9)
    ∷ carries_down 1
    ∷ server_copy into_a (move_piece 9)
    ∷ visitor_ends
    ∷ server_copy into_b finish
    ∷ carries_down 1
    ∷ server_copy into_a fail
    ∷ carries_up 9
    ∷ ends_up
    ∷ client_copy into_b (move_piece 9)
    ∷ client_copy into_b finish
    ∷ client_copy into_a fail
    ∷ []

abbrev visitor : Conn
visitor = conn_of (1 ∷ [])

abbrev local : Conn
local = conn_of (7 ∷ [])

abbrev start : Tunnel
start = started visitor (conn_of []) (conn_of []) local

-- How the run ends: everything has reached the service, one byte of its answer is lost, and all
-- four connections are closed.
ending :
    ((tunnel rs start).client.b.outgoing ≡ 1 ∷ 2 ∷ [])
    × ((tunnel rs start).server.a.outgoing ≡ 7 ∷ [])
    × ((tunnel rs start).server.b.incoming ≡ 8 ∷ [])
    × ((tunnel rs start).server.a.closed ≡ true)
    × ((tunnel rs start).client.b.closed ≡ true)
unfolding tunnel tunnel_step relay_step move end_copy close_write close_end
ending = (refl, refl, refl, refl, refl)

abbrev dial : String → Result Conn
dial addr = ok local

abbrev pool : SessionPool
pool = record { sessions = 3 ∷ 5 ∷ 6 ∷ [] }

abbrev is_closed : ℕ → Bool
is_closed s = s == 3

abbrev addr : String
addr = "127.0.0.1:80"

addr_set : addr ≢ ""
addr_set = ground (arith, eq_iff addr "")

serve_visitor-forward_stream_example :
    let v =
      serve_visitor is_closed
        (λ s. false)
        (λ s. ok 1)
        (λ n. conn_of [])
        (server_events rs start)
        visitor
        pool in
    (v.1 ≡ some (tunnel rs start).server)
    × ((forward_stream dial (client_events rs start) addr (conn_of [])).1
        ≡ some (tunnel rs start).client)
    × Passes rs start (tunnel rs start) visitor local
    × (v.0.pool.sessions ≡ 6 ∷ 5 ∷ [])
serve_visitor-forward_stream_example =
    serve_visitor-forward_stream is_closed (λ s. false) (λ s. ok 1) (λ n. conn_of []) dial rs
      visitor (conn_of []) local addr pool (3 ∷ []) (6 ∷ []) 5 1 refl (refl, tt) refl refl addr_set
      refl (record { opened_new = (refl, refl, refl); accepted_new = (refl, refl, refl) })
      (refl, refl)

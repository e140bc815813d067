-- ===== src/Relay/Tunnel.antt =====
-- The relay of the server and the relay of the client, with a stream between them.
-- On the server `a` is the visitor and `b` the stream; on the client `a` is the stream and `b` the
-- local service.
use rathole_pro.Prelude.{◌≡◌, true, false, List, [], ◌++◌, All, ◌∙◌, ap, arith}
use rathole_pro.Relay.{Copy, into_a, into_b, Relaying, Event, copy_done, target, relay}
use rathole_pro.Relay.Order.{received, line}
use rathole_pro.Relay.Ends.{no_failure, relay_delivers}

-- A relay that has just been started: both copies run, and nothing has been read or written.
pub record IsFresh (r : Relaying) : Type 0 where
  pub a_runs : r.into_a_done ≡ false
  pub b_runs : r.into_b_done ≡ false
  pub a_unread : r.a.incoming ≡ []
  pub b_unread : r.b.incoming ≡ []
  pub a_unwritten : r.a.outgoing ≡ []
  pub b_unwritten : r.b.outgoing ≡ []

fresh_line : (c : Copy) (r : Relaying) → IsFresh r → line c r ≡ []
fresh_line into_a r new = ground (arith, new.a_unwritten, new.b_unread)
fresh_line into_b r new = ground (arith, new.b_unwritten, new.a_unread)

fresh_runs : (c : Copy) (r : Relaying) → IsFresh r → copy_done c r ≡ false
fresh_runs into_a r new = new.a_runs
fresh_runs into_b r new = new.b_runs

fresh_delivers :
    (c : Copy) (es : List Event) (r : Relaying)
    → All (λ e. no_failure e ≡ true) es
    → IsFresh r
    → copy_done c (relay es r) ≡ true
    → (target c (relay es r)).outgoing ≡ received c es r
fresh_delivers c es r ok new over =
    relay_delivers c es r ok (fresh_runs c r new) over
    ∙ ap (λ l. l ++ received c es r) (fresh_line c r new)

-- Two fresh relays on which nothing fails, with a stream between them: when the copies towards
-- the local service are done on both sides, and the client's relay got from the stream what the
-- server's relay had written, the service has been sent what came from the visitor, in order and
-- nothing else.
pub tunnel_delivers :
    (es fs : List Event) (server client : Relaying)
    → All (λ e. no_failure e ≡ true) es
    → All (λ e. no_failure e ≡ true) fs
    → IsFresh server
    → IsFresh client
    → copy_done into_b (relay es server) ≡ true
    → copy_done into_b (relay fs client) ≡ true
    → received into_b fs client ≡ (relay es server).b.outgoing
    → (relay fs client).b.outgoing ≡ received into_b es server
tunnel_delivers es fs server client ok_s ok_c new_s new_c over_s over_c between =
    fresh_delivers into_b fs client ok_c new_c over_c
    ∙ between
    ∙ fresh_delivers into_b es server ok_s new_s over_s

-- The same of the way back, from the service to the visitor.
pub tunnel_answers :
    (es fs : List Event) (server client : Relaying)
    → All (λ e. no_failure e ≡ true) es
    → All (λ e. no_failure e ≡ true) fs
    → IsFresh server
    → IsFresh client
    → copy_done into_a (relay es server) ≡ true
    → copy_done into_a (relay fs client) ≡ true
    → received into_a es server ≡ (relay fs client).a.outgoing
    → (relay es server).a.outgoing ≡ received into_a fs client
tunnel_answers es fs server client ok_s ok_c new_s new_c over_s over_c between =
    fresh_delivers into_a es server ok_s new_s over_s
    ∙ between
    ∙ fresh_delivers into_a fs client ok_c new_c over_c

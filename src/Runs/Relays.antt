-- ===== src/Runs/Relays.antt =====
-- A relay between a visitor and a stream, and what else runs for a service.
use rathole_pro.Prelude.{ℕ, ◌≡◌, refl, Bool, true, false, List, [], ◌∷◌, arith}
use rathole_pro.Relay.{End, Relaying, Event, into_a, into_b, arrives, ends, moves, finishes, relay}
use rathole_pro.Relay.Ends.{relay-IsWaiting, IsWaiting}
use rathole_pro.Relay.Returns.{relay_returns}

abbrev end_of : List ℕ → Bool → Bool → End
end_of incoming eof is_tcp = record {
  incoming = incoming;
  eof = eof;
  outgoing = [];
  is_tcp = is_tcp;
  write_closed = false;
  closed = false;
}

-- The visitor is a TCP connection, the stream is not.
abbrev fresh : Relaying
fresh = record {
  a = end_of (1 ∷ 2 ∷ []) false true;
  b = end_of [] false false;
  into_a_done = false;
  into_b_done = false;
}

abbrev from_visitor : List Event
from_visitor =
    moves into_b 1 ∷ arrives into_b (3 ∷ []) ∷ ends into_b ∷ moves into_b 9 ∷ finishes into_b ∷ []

relay-IsWaiting_example : IsWaiting (relay from_visitor fresh)
relay-IsWaiting_example =
    relay-IsWaiting from_visitor fresh (refl, (refl, (refl, (refl, (refl, tt)))))
      (refl, refl, refl, refl, refl, refl)

abbrev both_ended : Relaying
both_ended = record {
  a = end_of (1 ∷ 2 ∷ []) true true;
  b = end_of (5 ∷ []) true false;
  into_a_done = false;
  into_b_done = false;
}

abbrev interleaved : List Event
interleaved =
    moves into_b 1
    ∷ moves into_a 4
    ∷ finishes into_b
    ∷ moves into_b 4
    ∷ finishes into_b
    ∷ ends into_a
    ∷ finishes into_a
    ∷ []

relay_returns_example :
    let s = relay interleaved both_ended in
    (s.a.closed ≡ true)
    × (s.b.closed ≡ true)
    × (s.a.outgoing ≡ 5 ∷ [])
    × (s.b.outgoing ≡ 1 ∷ 2 ∷ [])
relay_returns_example =
    relay_returns interleaved both_ended (refl, (refl, (refl, (refl, (refl, (refl, (refl, tt)))))))
      (refl, refl) (refl, refl) (refl, refl)
      (record {
        size = 4;
        enough = omega arith;
        front = moves into_b 1 ∷ [];
        middle = finishes into_b ∷ moves into_b 4 ∷ finishes into_b ∷ ends into_a ∷ [];
        back = [];
        splits = refl;
      })
      (record {
        size = 4;
        enough = omega arith;
        front = moves into_b 1 ∷ moves into_a 4 ∷ finishes into_b ∷ [];
        middle = [];
        back = ends into_a ∷ finishes into_a ∷ [];
        splits = refl;
      })

-- ===== src/P2p/Punch/Exchange.antt =====
-- go-core/p2p/p2p.go: the addresses that two peers exchange.
use native.Mathlib.Numerals.{unary_clauses}
use rathole_pro.Prelude.{
  ℕ, zero, suc, take_all, drop_all, ◌+◌, ◌-◌, ◌^◌, ◌<◌, ◌≤◌, ◌≡◌, refl, ap, ◌∙◌, arith, false, List,
  [], ◌∷◌, ◌++◌, append_assoc, length, take, drop, replicate, min, length-take, length-append,
  length-replicate,
}
use rathole_pro.Prelude.Words.{u16, put_u16, big_endian, big_endian-put_u16}
use rathole_pro.Prelude.Exec.{ok, Exec, ◌>>=◌, ◌>>◌, bind_ok}
use rathole_pro.Net.{Conn, write}
use rathole_pro.Net.Laws.{write_ok}
use rathole_pro.P2p.Punch.{read_piece, address_message, exchange}

take_front : (n : ℕ) (xs rest : List ℕ) → take (min n (length xs)) (xs ++ rest) ≡ take n xs
take_front zero xs rest = simp unary_clauses refl
take_front (suc n) [] rest = simp unary_clauses refl
take_front (suc n) (x ∷ xs) rest = simp unary_clauses (ap (◌∷◌ x) (take_front n xs rest))

drop_front : (n : ℕ) (xs rest : List ℕ) → drop (min n (length xs)) (xs ++ rest) ≡ drop n xs ++ rest
drop_front zero xs rest = simp unary_clauses refl
drop_front (suc n) [] rest = simp unary_clauses refl
drop_front (suc n) (x ∷ xs) rest = simp unary_clauses (drop_front n xs rest)

-- A `Read` for what comes next, into a buffer of its size.
read_piece_front :
    (piece : ℕ) (c : Conn) (buf xs rest : List ℕ)
    → c.closed ≡ false
    → c.incoming ≡ xs ++ rest
    → 0 < length xs
    → length buf ≡ length xs
    → read_piece piece buf c ≡ (
      ok (take piece xs ++ drop (length (take piece xs)) buf),
      record c { incoming = drop piece xs ++ rest },
    )
unfolding read_piece
read_piece_front piece c buf xs rest is_open split some_byte same =
    let there : 1 ≤ length (xs ++ rest) = omega (arith, length-append xs rest) in
    rw is_open (
      rw same (
        rw split
          (rw (take_front piece xs rest) (rw (drop_front piece xs rest) (ground (arith, there))))))

drop-replicate : (k n : ℕ) → drop {A = ℕ} k (replicate n 0) ≡ replicate (n - k) 0
drop-replicate zero n = simp unary_clauses refl
drop-replicate (suc k) zero = let none_left : 0 - suc k ≡ 0 = omega arith in rw none_left refl
drop-replicate (suc k) (suc n) = simp unary_clauses (drop-replicate k n)

-- Into a new buffer.
read_piece_zeros :
    (piece : ℕ) (c : Conn) (xs rest : List ℕ)
    → c.closed ≡ false
    → c.incoming ≡ xs ++ rest
    → 0 < length xs
    → read_piece piece (replicate (length xs) 0) c ≡ (
      ok (take piece xs ++ replicate (length xs - piece) 0),
      record c { incoming = drop piece xs ++ rest },
    )
read_piece_zeros piece c xs rest is_open split some_byte =
    let count : length (take piece xs) ≡ min piece (length xs) = length-take piece xs in
    let left : length xs - length (take piece xs) ≡ length xs - piece = omega (arith, count) in
    read_piece_front piece c (replicate (length xs) 0) xs rest is_open split some_byte
      (length-replicate (length xs) 0)
    ∙ rw (drop-replicate (length (take piece xs)) (length xs)) (rw left refl)

-- The connection after the address was sent.
abbrev after_writes : List ℕ → Conn → Conn
after_writes text c = record c {
  outgoing = c.outgoing ++ address_message text;
  room = c.room - 2 - length text;
}

abbrev reads : (ℕ → ℕ) → List ℕ → Exec Conn (List ℕ)
reads piece header = do
  header ← read_piece (piece 0) header
  read_piece (piece 1) (replicate (big_endian header) 0)

sends :
    (piece : ℕ → ℕ) (c : Conn) (text : List ℕ)
    → c.closed ≡ false
    → length text + 2 ≤ c.room
    → exchange piece text c ≡ reads piece (put_u16 (u16 (length text))) (after_writes text c)
unfolding exchange address_message put_u16
sends piece c text is_open fits =
    let head = put_u16 (u16 (length text)) in
    let c1 : Conn = record c { outgoing = c.outgoing ++ head; room = c.room - 2 } in
    let c2 : Conn = record c1 { outgoing = c1.outgoing ++ text; room = c1.room - length text } in
    let same : c2 ≡ after_writes text c =
      ap (λ out. record c2 { outgoing = out }) (append_assoc c.outgoing head text) in
    bind_ok (write head) (λ _. write text >> reads piece head) c c1 2
      (write_ok head c is_open (omega arith))
    ∙ bind_ok (write text) (λ _. reads piece head) c1 c2 (length text)
        (write_ok text c1 is_open (omega arith))
    ∙ ap (reads piece head) same

-- On an open connection with room for the address of this side, on which the peer's address
-- message comes first, with an address of one byte or more and less than 2^16, and whose first
-- `Read` gives the whole length in front of it, the exchange sends this side's address message, and gives the peer's address as far as the second `Read` has it,
-- with zeros in place of what is missing, which stays on the connection: the whole address when
-- that `Read` gives all of it, and not otherwise.
pub exchange-address_message :
    (piece : ℕ → ℕ) (c : Conn) (text peer rest : List ℕ) (p : ℕ) (ps : List ℕ)
    → c.closed ≡ false
    → length text + 2 ≤ c.room
    → peer ≡ p ∷ ps
    → length peer < 2 ^ 16
    → c.incoming ≡ address_message peer ++ rest
    → 2 ≤ piece 0
    → exchange piece text c ≡ (
      ok (take (piece 1) peer ++ replicate (length peer - piece 1) 0),
      record (after_writes text c) { incoming = drop (piece 1) peer ++ rest },
    )
unfolding address_message put_u16
exchange-address_message piece c text peer rest p ps is_open fits some_byte short split header =
    let c1 = after_writes text c in
    let head = put_u16 (u16 (length peer)) in
    let c2 : Conn = record c1 { incoming = peer ++ rest } in
    let mine = put_u16 (u16 (length text)) in
    let got : read_piece (piece 0) mine c1 ≡ (ok head, c2) =
      read_piece_front (piece 0) c1 mine head (peer ++ rest) is_open
        (split ∙ append_assoc head peer rest) (omega arith) refl
      ∙ rw (take_all (piece 0) head header)
          (rw (drop_all (piece 0) head header) (ground (arith))) in
    let count : big_endian head ≡ length peer =
      big_endian-put_u16 (u16 (length peer)) (omega arith) ∙ omega arith in
    sends piece c text is_open fits
    ∙ bind_ok (read_piece (piece 0) mine)
        (λ header. read_piece (piece 1) (replicate (big_endian header) 0)) c1 c2 head got
    ∙ rw count (read_piece_zeros (piece 1) c2 peer rest is_open refl (rw some_byte (omega arith)))

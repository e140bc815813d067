-- ===== src/Net/Laws.antt =====
-- What reading and writing do on an open connection.
use rathole_pro.Prelude.{
  ◌<◌, ap, replicate, append-nil, sym, refl, ◌==◌, Bool-cases, ◌⊎◌, inl, inr, leb, take, drop, ℕ,
  ◌-◌, ◌≤◌, ◌≡◌, false, List, [], ◌∷◌, ◌++◌, arith, length, length-append, take-length-append,
  drop-length-append, take-append-drop, length-take,
}
use rathole_pro.Prelude.Exec.{ok, err, Err, closed_conn, eof}
use rathole_pro.Net.{short_read, Conn, read_full, read_padded, write}

-- Exactly the bytes asked for are taken off the front.
pub read_full-append :
    (xs rest : List ℕ) (c : Conn)
    → c.closed ≡ false
    → c.incoming ≡ xs ++ rest
    → read_full (length xs) c ≡ (ok xs, record c { incoming = rest })
unfolding read_full
read_full-append [] rest c open_conn e = ground arith
read_full-append (x ∷ xs) rest c open_conn e =
    ground (arith, take-length-append xs rest, drop-length-append xs rest, length-append xs rest)

-- What a successful read took.
pub read_full_inv :
    (n : ℕ) (xs : List ℕ) (c d : Conn)
    → read_full n c ≡ (ok xs, d)
    → (length xs ≡ n)
      × (c.incoming ≡ xs ++ d.incoming)
      × (d.outgoing ≡ c.outgoing)
      × (d.room ≡ c.room)
      × (d.closed ≡ c.closed)
unfolding read_full
read_full_inv n xs c d e = ground (arith, take-append-drop n c.incoming, length-take n c.incoming)

pub write_ok :
    (b : List ℕ) (c : Conn)
    → c.closed ≡ false
    → length b ≤ c.room
    → write b c ≡ (ok (length b), record c { outgoing = c.outgoing ++ b; room = c.room - length b })
unfolding write
write_ok b c open_conn h = ground arith

-- A read of `n` bytes gives them off the front, or fails.
pub read_full_cases :
    (n : ℕ) (c : Conn)
    → ((xs : List ℕ) × (rest : List ℕ) × (read_full n c ≡ (ok xs, record c { incoming = rest }))
        × (length xs ≡ n)
        × (c.incoming ≡ xs ++ rest))
      ⊎ ((e : Err) × (d : Conn) × (read_full n c ≡ (err e, d)))
unfolding read_full
read_full_cases n c = elim (Bool-cases (n == 0)) [
  | inl z ↦ inl ([], c.incoming, ground arith, ground arith, refl)
  | inr nz ↦ elim (Bool-cases c.closed) [
    | inl k ↦ inr (closed_conn, c, ground arith)
    | inr k ↦ elim (Bool-cases (leb n (length c.incoming))) [
      | inl f ↦ inl (
        take n c.incoming,
        drop n c.incoming,
        ground arith,
        ground (arith, length-take n c.incoming),
        sym (take-append-drop n c.incoming),
      )
      | inr f ↦ inr (short_read c.incoming, record c { incoming = [] }, ground arith)
    ]
  ]
]

pub read_full_end :
    (n : ℕ) (c : Conn) → 0 < n → c.closed ≡ false → c.incoming ≡ [] → read_full n c ≡ (err eof, c)
unfolding read_full
read_full_end n c pos open_conn e = ground arith

no_padding : (xs rest : List ℕ) → length xs - length (xs ++ rest) ≡ 0
no_padding xs rest = omega (arith, length-append xs rest)

pub read_padded-append :
    (xs rest : List ℕ) (c : Conn)
    → c.closed ≡ false
    → c.incoming ≡ xs ++ rest
    → read_padded (length xs) c ≡ (ok xs, record c { incoming = rest })
unfolding read_padded
read_padded-append xs rest c open_conn e = ground (
  arith,
  take-length-append xs rest,
  drop-length-append xs rest,
  length-append xs rest,
  append-nil xs,
  ap (λ (k : ℕ). replicate {A = ℕ} k 0) (no_padding xs rest),
)

-- ===== src/Net/Wire.antt =====
-- The part of Go's `net.Conn` that the protocol uses, with `io.ReadFull`: the operations of a bare
-- connection, and those of a connection that a transport has wrapped.
pub mod Full
use rathole_pro.Prelude.{ℕ, zero, suc, ◌-◌, ◌≡◌, List, [], ◌∷◌, ◌++◌, length, leb, if◌then◌else◌}
use rathole_pro.Prelude.Exec.{
  Err, eof, unexpected_eof, closed_conn, short_write, out_of_fuel, errorf, wrapf, ok, err, Exec,
}
use rathole_pro.Net.{Conn, read_full as conn_read_full, write as conn_write, close as conn_close}

pub record Wire (S : Type 0) : Type 0 where
  pub read_full_by : ℕ → Exec S (List ℕ)
  pub write_by : List ℕ → Exec S ℕ
  pub close_by : Exec S (Unit {0})

module _ {S : Type 0} ⦃w : Wire S⦄ where
  -- `io.ReadFull(conn, make([]byte, n))`
  abbrev pub read_full : ℕ → Exec S (List ℕ)
  read_full = w.read_full_by

  abbrev pub write : List ℕ → Exec S ℕ
  write = w.write_by

  abbrev pub close : Exec S (Unit {0})
  close = w.close_by

  -- The connection sends these bytes, all of them.
  abbrev pub Sends : S → List ℕ → S → Type 0
  Sends s xs s' = write xs s ≡ (ok (length xs), s')

  -- These bytes are what the connection gives next.
  abbrev pub Gives : S → List ℕ → S → Type 0
  Gives s xs s' = read_full (length xs) s ≡ (ok xs, s')

instance abbrev pub conn_wire : Wire Conn
conn_wire = record { read_full_by = conn_read_full; write_by = conn_write; close_by = conn_close }

-- The error of `io.ReadFull` when `Read` fails after these bytes.
abbrev pub full_error : List ℕ → Err → Err
full_error [] e = e
full_error (_ ∷ _) eof = unexpected_eof
full_error (_ ∷ _) e = e

-- The loop of `io.ReadFull` over a `Read` that fills a buffer of a size as far as it gets: until
-- `n` bytes are there. A `Read` may give none.
unfoldable pub full_loop : {S : Type 0} → (ℕ → Exec S (List ℕ)) → ℕ → ℕ → List ℕ → Exec S (List ℕ)
full_loop read zero n got s =
    (if leb n (length got) then ok got else err (full_error got out_of_fuel), s)
full_loop read (suc fuel) n got s =
    let r = read (n - length got) s in
    let more = full_loop read fuel n in
    if leb n (length got)
    then (ok got, s)
    else elim r.0 [ err e ↦ (err (full_error got e), r.1) | ok xs ↦ more (got ++ xs) r.1 ]

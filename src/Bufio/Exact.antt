-- ===== src/Bufio/Exact.antt =====
-- A reader to which the connection gives nothing behind a line keeps nothing.
use rathole_pro.Prelude.{ℕ, zero, suc, ◌≡◌, List, [], inl, inr, arith}
use rathole_pro.Prelude.Exec.{Result-cases}
use rathole_pro.Bufio.{Reader, read_line}
use rathole_pro.Bufio.Heads.{read_head}

-- Nothing is kept, and nothing will be.
abbrev pub IsExact : Reader → Type 0
IsExact r = (r.buffered ≡ []) × ((i : ℕ) → r.ahead i ≡ 0)

pub read_line-IsExact : (r : Reader) → IsExact r → IsExact (read_line r).1
unfolding read_line
read_line-IsExact r h = (ground (arith, h.0, h.1 r.calls), λ i. ground (arith, h.1 i))

pub read_head-IsExact :
    {S : Type 0} (body : S → List ℕ → S) (fuel : ℕ) (s : S) (r : Reader)
    → IsExact r
    → IsExact (read_head body fuel s r).1
unfolding read_head
read_head-IsExact body zero s r h = h
read_head-IsExact body (suc fuel) s r h =
    let l = read_line r in
    let exact = read_line-IsExact r h in
    elim (Result-cases l.0) [
      | inr (e, failed) ↦ (ground (arith, exact.0), λ i. ground (arith, exact.1 i))
      | inl (line, got) ↦
          let more = read_head-IsExact body fuel (body s line) l.1 exact in
          (ground (arith, exact.0, more.0), λ i. ground (arith, exact.1 i, more.1 i))
    ]

-- ===== src/Bufio/Heads.antt =====
-- The head of an HTTP message: lines up to an empty one. Three loops of the program read one.
use rathole_pro.Prelude.{
  ℕ, zero, suc, ◌<◌, ◌≡◌, refl, ap, ◌∙◌, true, false, List, [], ◌∷◌, ◌++◌, append_assoc,
  if◌then◌else◌, length, length-append, All, arith,
}
use rathole_pro.Prelude.Text.{is_empty, trim_space, Lacks}
use rathole_pro.Prelude.Exec.{out_of_fuel, ok, err, Exec, raise}
use rathole_pro.Bufio.{Reader, unread, read_line, read_line_ok, ReadsUpTo}

-- `for { line, err := reader.ReadString('\n'); ... }` up to a line that is blank, with what the body
-- makes of each line.
unfoldable pub read_head : {S : Type 0} → (S → List ℕ → S) → ℕ → S → Exec Reader S
read_head body zero s = raise out_of_fuel
read_head body (suc fuel) s =
    let again = read_head body fuel in
    λ r.
      let l = read_line r in
      elim l.0 [
        | err e ↦ (err e, l.1)
        | ok line ↦
            if is_empty (trim_space line) then (ok (body s line), l.1) else again (body s line) l.1
      ]

-- Each line takes a byte at least, so one round more than there are bytes is enough.
abbrev pub whole_head : {S : Type 0} → (S → List ℕ → S) → S → Exec Reader S
whole_head body s r = read_head body (suc (length (unread r))) s r

abbrev pub crlf : List ℕ
crlf = b'\r' ∷ b'\n' ∷ []

-- A line of a head, without its end: it is not blank, and ends where it says.
abbrev pub IsHeadLine : List ℕ → Type 0
IsHeadLine line = Lacks b'\n' (line ++ b'\r' ∷ []) × (is_empty (trim_space (line ++ crlf)) ≡ false)

abbrev pub head_of : List (List ℕ) → List ℕ
head_of [] = crlf
head_of (line ∷ lines) = (line ++ crlf) ++ head_of lines

-- What the body makes of all lines, the blank one included.
abbrev pub over_lines {ℓ} : {S : Type ℓ} → (S → List ℕ → S) → S → List (List ℕ) → S
over_lines body s [] = body s crlf
over_lines body s (line ∷ lines) = over_lines body (body s (line ++ crlf)) lines

pub length-head_of : (lines : List (List ℕ)) → length lines < length (head_of lines)
length-head_of [] = omega arith
length-head_of (line ∷ lines) = omega (
  arith,
  length-head_of lines,
  length-append (line ++ crlf) (head_of lines),
  length-append line crlf,
)

ReadsUpTo-trans :
    {r s t : Reader} (mid rest : List ℕ)
    → ReadsUpTo r s mid
    → ReadsUpTo s t rest
    → ReadsUpTo r t rest
ReadsUpTo-trans mid rest a b = record {
  left = b.left;
  same_conn = ground (arith, a.same_conn, b.same_conn);
}

read_crlf :
    (line rest : List ℕ) (r : Reader)
    → Lacks b'\n' (line ++ b'\r' ∷ [])
    → r.conn.closed ≡ false
    → unread r ≡ (line ++ crlf) ++ rest
    → ((read_line r).0 ≡ ok (line ++ crlf)) × ReadsUpTo r (read_line r).1 rest
read_crlf line rest r h open_conn e =
    let split : (line ++ crlf) ++ rest ≡ (line ++ b'\r' ∷ []) ++ b'\n' ∷ rest = simp append_assoc in
    let (a, b) = read_line_ok (line ++ b'\r' ∷ []) rest r h open_conn (e ∙ split) in
    (a ∙ ap ok (append_assoc line (b'\r' ∷ []) (b'\n' ∷ [])), b)

crlf_blank : is_empty (trim_space crlf) ≡ true
unfolding trim_space
crlf_blank = refl

pub read_head_ok :
    {S : Type 0} (body : S → List ℕ → S) (fuel : ℕ) (s : S) (lines : List (List ℕ)) (rest : List ℕ)
    (r : Reader)
    → All IsHeadLine lines
    → r.conn.closed ≡ false
    → unread r ≡ head_of lines ++ rest
    → length lines < fuel
    → ((read_head body fuel s r).0 ≡ ok (over_lines body s lines))
      × ReadsUpTo r (read_head body fuel s r).1 rest
unfolding read_head
read_head_ok body zero s lines rest r h open_conn e enough = absurd (omega arith)
read_head_ok body (suc fuel) s [] rest r h open_conn e enough =
    let (a, b) = read_crlf [] rest r (omega arith) open_conn e in
    (ground (arith, a, crlf_blank), ground (arith, a, b, crlf_blank))
read_head_ok body (suc fuel) s (line ∷ lines) rest r h open_conn e enough =
    let (a, b) =
      read_crlf line (head_of lines ++ rest) r h.0.0 open_conn
        (e ∙ append_assoc (line ++ crlf) (head_of lines) rest) in
    let (c, d) =
      read_head_ok body fuel (body s (line ++ crlf)) lines rest (read_line r).1 h.1
        (ground (arith, b.same_conn)) b.left (omega arith) in
    let next : read_head body (suc fuel) s r
        ≡ read_head body fuel (body s (line ++ crlf)) (read_line r).1 =
      ground (arith, a, h.0.1) in
    rw next (c, ReadsUpTo-trans (head_of lines ++ rest) rest b d)

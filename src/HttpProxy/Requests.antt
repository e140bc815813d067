-- ===== src/HttpProxy/Requests.antt =====
-- What the parsing finds in the head of a request.
use rathole_pro.Prelude.{
  ℕ, suc, ◌≡◌, refl, ap, ◌∙◌, Bool, true, false, List, [], ◌∷◌, ◌++◌, append_assoc, drop, length,
  All, arith, ne→==, drop-length-append,
}
use rathole_pro.Prelude.Text.{
  bytes, trim_space, NoSpace, Lacks, to_lower, lower, has_prefix, cut_lem, trim_value,
}
use rathole_pro.Prelude.Exec.{ok}
use rathole_pro.Bufio.Heads.{crlf, head_of}
use rathole_pro.HttpProxy.{
  RequestLine, before_crlf, parse_request_line, split_crlf, find_host, extract_host,
}

abbrev pub request_line : RequestLine → List ℕ
request_line q = q.method ++ b' ' ∷ (q.target ++ b' ' ∷ q.version)

before_crlf_lem :
    (line rest : List ℕ) → Lacks b'\r' line → before_crlf (line ++ (crlf ++ rest)) ≡ line
unfolding before_crlf
before_crlf_lem [] rest h = refl
before_crlf_lem (c ∷ line) rest h = ground (arith, before_crlf_lem line rest h.1)

-- A method and a target without spaces, on a line that ends with CR LF, are read as written.
pub parse_request_line_ok :
    (q : RequestLine) (rest : List ℕ)
    → Lacks b' ' q.method
    → Lacks b' ' q.target
    → Lacks b'\r' (request_line q)
    → parse_request_line (request_line q ++ (crlf ++ rest)) ≡ ok q
unfolding parse_request_line
parse_request_line_ok q rest hm ht line = ground (
  arith,
  before_crlf_lem (request_line q) rest line,
  cut_lem b' ' q.method (q.target ++ b' ' ∷ q.version) hm,
  cut_lem b' ' q.target q.version ht,
)

split_crlf_line :
    (line rest : List ℕ)
    → Lacks b'\r' line
    → split_crlf (line ++ (crlf ++ rest)) ≡ line ∷ split_crlf rest
unfolding split_crlf
split_crlf_line [] rest h = refl
split_crlf_line (c ∷ []) rest h = rw (ne→== c b'\r' h.0)
split_crlf_line (c ∷ d ∷ line) rest h =
    rw (ne→== c b'\r' h.0) (rw (split_crlf_line (d ∷ line) rest h.1))

-- The lines of a head, and the two empty texts around its last CR LF.
pub split_crlf-head_of :
    (lines : List (List ℕ))
    → All (Lacks b'\r') lines
    → split_crlf (head_of lines) ≡ lines ++ [] ∷ [] ∷ []
split_crlf-head_of [] h = unfold split_crlf in refl
split_crlf-head_of (line ∷ lines) h =
    rw (append_assoc line crlf (head_of lines))
      (split_crlf_line line (head_of lines) h.0 ∙ ap (◌∷◌ line) (split_crlf-head_of lines h.1))

-- A line that `ExtractHost` takes for the host.
abbrev pub names_host : List ℕ → Bool
names_host line = has_prefix (to_lower line) (bytes "host:")

find_host_lem :
    (before : List (List ℕ)) (line : List ℕ) (after : List (List ℕ))
    → All (λ l. names_host l ≡ false) before
    → names_host line ≡ true
    → find_host (before ++ line ∷ after) ≡ trim_space (drop 5 line)
unfolding find_host
find_host_lem [] line after h e = ground arith
find_host_lem (l ∷ before) line after h e = ground (arith, find_host_lem before line after h.1 e)

to_lower-append : (xs ys : List ℕ) → to_lower (xs ++ ys) ≡ to_lower xs ++ to_lower ys
to_lower-append [] ys = refl
to_lower-append (x ∷ xs) ys = ap (◌∷◌ (lower x)) (to_lower-append xs ys)

length-to_lower : (xs : List ℕ) → length (to_lower xs) ≡ length xs
length-to_lower [] = refl
length-to_lower (x ∷ xs) = ap suc (length-to_lower xs)

-- `ExtractHost` gives the value of the first line that starts with `host:`, in letters of either
-- case, and a space, if the value holds no space and no line holds a CR.
pub extract_host_lem :
    (before after : List (List ℕ)) (name value : List ℕ)
    → All (Lacks b'\r') (before ++ (name ++ b' ' ∷ value) ∷ after)
    → All (λ l. names_host l ≡ false) before
    → to_lower name ≡ bytes "host:"
    → NoSpace value
    → extract_host (head_of (before ++ (name ++ b' ' ∷ value) ∷ after)) ≡ value
unfolding extract_host
extract_host_lem before after name value lines none_before is_host h =
    let line = name ++ b' ' ∷ value in
    let named : names_host line ≡ true = rw (to_lower-append name (b' ' ∷ value), is_host) refl in
    let five : length name ≡ 5 = omega (arith, length-to_lower name, ap length is_host) in
    let behind : drop 5 line ≡ b' ' ∷ value = rw five at (drop-length-append name (b' ' ∷ value)) in
    rw
      (
        split_crlf-head_of (before ++ line ∷ after) lines,
        append_assoc before (line ∷ after) ([] ∷ [] ∷ []),
      )
      (find_host_lem before line (after ++ [] ∷ [] ∷ []) none_before named
        ∙ ap trim_space behind
        ∙ trim_value value h)

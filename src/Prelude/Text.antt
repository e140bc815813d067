-- ===== src/Prelude/Text.antt =====
-- Go's `strings` on texts as lists of bytes. The letters and spaces are those of ASCII; `strings`
-- knows others above byte 127, and there the model keeps the bytes as they are.
use Prim.Native.Nat.{ℕ, ◌+◌, ◌-◌}
use Prim.Native.Char.{code}
use Prim.Native.String.{String}
use mathlib.Core.Path.{◌≡◌, refl}
use mathlib.Core.Logic.{◌≢◌}
use mathlib.Core.Bool.{Bool, true, false, ◌&&◌, ◌||◌}
use mathlib.Core.Option.{Option, none, some}
use mathlib.Core.List.{List, [], ◌∷◌, ◌++◌}
use native.Mathlib.Omega.{arith}
use rathole_pro.Prelude.Tests.{leb, ◌==◌, if◌then◌else◌}
use rathole_pro.Prelude.Lists.{All}

-- `[]byte(s)` of a literal.
abbrev pub bytes : String → List ℕ
bytes String.[] = []
bytes (String.◌∷◌ c s) = code c ∷ bytes s

abbrev pub is_empty : List ℕ → Bool
is_empty [] = true
is_empty (_ ∷ _) = false

unfoldable pub is_space : ℕ → Bool
is_space c = leb 9 c && leb c 13 || c == b' '

unfoldable pub trim_left : List ℕ → List ℕ
trim_left [] = []
trim_left (c ∷ cs) = let rest = trim_left cs in if is_space c then rest else c ∷ cs

unfoldable pub trim_right : List ℕ → List ℕ
trim_right [] = []
trim_right (c ∷ cs) =
    let rest = trim_right cs in if is_space c && is_empty rest then [] else c ∷ rest

-- `strings.TrimSpace`
unfoldable pub trim_space : List ℕ → List ℕ
unfolding trim_left trim_right is_space
trim_space s = trim_right (trim_left s)

abbrev pub lower : ℕ → ℕ
lower c = if leb b'A' c && leb c b'Z' then c + 32 else c

abbrev pub upper : ℕ → ℕ
upper c = if leb b'a' c && leb c b'z' then c - 32 else c

-- `strings.ToLower` and `strings.ToUpper`
abbrev pub to_lower : List ℕ → List ℕ
to_lower [] = []
to_lower (c ∷ cs) = lower c ∷ to_lower cs

abbrev pub to_upper : List ℕ → List ℕ
to_upper [] = []
to_upper (c ∷ cs) = upper c ∷ to_upper cs

-- `strings.HasPrefix(s, prefix)`
abbrev pub has_prefix : List ℕ → List ℕ → Bool
has_prefix s [] = true
has_prefix [] (p ∷ prefix) = false
has_prefix (c ∷ s) (p ∷ prefix) = c == p && has_prefix s prefix

-- `strings.Contains(s, part)`
unfoldable pub contains : List ℕ → List ℕ → Bool
contains [] part = is_empty part
contains (c ∷ s) part = has_prefix (c ∷ s) part || contains s part

abbrev in_front : ℕ → Option (List ℕ × List ℕ) → Option (List ℕ × List ℕ)
in_front c none = none
in_front c (some (a, b)) = some (c ∷ a, b)

-- The parts in front of a byte's first place and behind it: `strings.SplitN(s, sep, 2)`.
unfoldable pub cut : ℕ → List ℕ → Option (List ℕ × List ℕ)
cut sep [] = none
cut sep (c ∷ s) = let later = in_front c (cut sep s) in if c == sep then some ([], s) else later

-- No byte of a text is `sep`.
abbrev pub Lacks : ℕ → List ℕ → Type 0
Lacks sep = All (λ c. c ≢ sep)

pub cut_lem :
    (sep : ℕ) (front back : List ℕ)
    → Lacks sep front
    → cut sep (front ++ sep ∷ back) ≡ some (front, back)
unfolding cut
cut_lem sep [] back h = ground arith
cut_lem sep (c ∷ front) back h = ground (arith, cut_lem sep front back h.1)

-- No byte of a text is a space.
abbrev pub NoSpace : List ℕ → Type 0
NoSpace = All (λ c. is_space c ≡ false)

pub trim_right-NoSpace : (s : List ℕ) → NoSpace s → trim_right s ≡ s
unfolding trim_right
trim_right-NoSpace [] h = refl
trim_right-NoSpace (c ∷ s) h = ground (arith, trim_right-NoSpace s h.1)

-- Spaces at the end go, however many.
pub trim_right-append :
    (s spaces : List ℕ) → trim_right spaces ≡ [] → trim_right (s ++ spaces) ≡ trim_right s
unfolding trim_right
trim_right-append [] spaces h = h
trim_right-append (c ∷ s) spaces h = ground (arith, trim_right-append s spaces h)

pub trim_left-NoSpace : (s : List ℕ) → NoSpace s → trim_left s ≡ s
unfolding trim_left
trim_left-NoSpace [] h = refl
trim_left-NoSpace (c ∷ s) h = ground arith

-- `==` of two texts.
unfoldable pub bytes_eq : List ℕ → List ℕ → Bool
bytes_eq [] [] = true
bytes_eq [] (y ∷ ys) = false
bytes_eq (x ∷ xs) [] = false
bytes_eq (x ∷ xs) (y ∷ ys) = x == y && bytes_eq xs ys

pub bytes_eq_refl : (xs : List ℕ) → bytes_eq xs xs ≡ true
unfolding bytes_eq
bytes_eq_refl [] = refl
bytes_eq_refl (x ∷ xs) = ground (arith, bytes_eq_refl xs)

pub bytes_eq→eq : (xs ys : List ℕ) → bytes_eq xs ys ≡ true → xs ≡ ys
unfolding bytes_eq
bytes_eq→eq [] [] h = refl
bytes_eq→eq [] (y ∷ ys) h = cc
bytes_eq→eq (x ∷ xs) [] h = cc
bytes_eq→eq (x ∷ xs) (y ∷ ys) h = ground (arith, bytes_eq→eq xs ys)

-- A space in front of a text without spaces goes.
pub trim_value : (value : List ℕ) → NoSpace value → trim_space (b' ' ∷ value) ≡ value
unfolding trim_space
trim_value value h = rw (trim_left-NoSpace value h) (trim_right-NoSpace value h)

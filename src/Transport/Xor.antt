-- ===== src/Transport/Xor.antt =====
-- The loops `for i := range data { data[i] ^= key[i%len(key)] }` of go-core/transport/wsframe.go
-- and go-core/transport/noise.go, and their laws.
use rathole_pro.Prelude.{
  take, ℕ, zero, suc, ◌+◌, ◌%◌, ◌<◌, ◌≡◌, refl, ap, List, [], ◌∷◌, bit_xor, length, get_or, arith,
}
use rathole_pro.Prelude.Bits.{bit_xor_cancel, bit_xor-lt}
use rathole_pro.Prelude.Words.{IsBytes}
use mathlib.Core.Path.{ap₂}

-- The loop from index `i` on, with a key of `klen` bytes.
unfoldable pub xor_from : List ℕ → ℕ → ℕ → List ℕ → List ℕ
xor_from key klen i [] = []
xor_from key klen i (x ∷ xs) = bit_xor x (get_or key (i % klen) 0) ∷ xor_from key klen (i + 1) xs

pub length-xor_from :
    (key : List ℕ) (klen i : ℕ) (xs : List ℕ) → length (xor_from key klen i xs) ≡ length xs
unfolding xor_from
length-xor_from key klen i [] = refl
length-xor_from key klen i (x ∷ xs) = ap suc (length-xor_from key klen (i + 1) xs)

-- The loop undoes itself.
pub xor_from_cancel :
    (key : List ℕ) (klen i : ℕ) (xs : List ℕ) → xor_from key klen i (xor_from key klen i xs) ≡ xs
unfolding xor_from
xor_from_cancel key klen i [] = refl
xor_from_cancel key klen i (x ∷ xs) =
    ap₂ ◌∷◌ (bit_xor_cancel x _) (xor_from_cancel key klen (i + 1) xs)

get_or-IsByte : (key : List ℕ) (i : ℕ) → IsBytes key → get_or key i 0 < 256
get_or-IsByte [] i h = omega arith
get_or-IsByte (x ∷ xs) zero h = h.0
get_or-IsByte (x ∷ xs) (suc i) h = get_or-IsByte xs i h.1

pub xor_from-IsBytes :
    (key : List ℕ) (klen i : ℕ) (xs : List ℕ)
    → IsBytes key
    → IsBytes xs
    → IsBytes (xor_from key klen i xs)
unfolding xor_from
xor_from-IsBytes key klen i [] k h = tt
xor_from-IsBytes key klen i (x ∷ xs) k h =
    (bit_xor-lt 8 x _ h.0 (get_or-IsByte key _ k), xor_from-IsBytes key klen (i + 1) xs k h.1)

-- The loop works byte by byte, so it commutes with cutting.
pub take-xor_from :
    (n : ℕ) (key : List ℕ) (klen i : ℕ) (xs : List ℕ)
    → take n (xor_from key klen i xs) ≡ xor_from key klen i (take n xs)
unfolding xor_from
take-xor_from zero key klen i xs = refl
take-xor_from (suc n) key klen i [] = refl
take-xor_from (suc n) key klen i (x ∷ xs) = ground (arith, take-xor_from n key klen (i + 1) xs)

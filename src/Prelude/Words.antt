-- ===== src/Prelude/Words.antt =====
-- Bytes and big-endian words: Go's `byte(v)` and `binary.BigEndian`.
use Prim.Native.Nat.{ℕ, ◌+◌, ◌*◌, ◌/◌, ◌%◌, ◌^◌, ◌<◌}
use mathlib.Core.Path.{◌≡◌}
use mathlib.Core.List.{List, [], ◌∷◌}
use native.Mathlib.Omega.{arith}
use rathole_pro.Prelude.Lists.{All}

abbrev pub u8 : ℕ → ℕ
u8 n = n % 2 ^ 8

abbrev pub u16 : ℕ → ℕ
u16 n = n % 2 ^ 16

abbrev pub u32 : ℕ → ℕ
u32 n = n % 2 ^ 32

abbrev pub IsByte : ℕ → Type 0
IsByte b = b < 256

abbrev pub IsBytes : List ℕ → Type 0
IsBytes = All IsByte

-- `PutUint16`, `PutUint32` and `PutUint64`: the bytes of a word, highest first.
unfoldable pub put_u16 : ℕ → List ℕ
put_u16 v = u8 (v / 2 ^ 8) ∷ u8 v ∷ []

unfoldable pub put_u32 : ℕ → List ℕ
put_u32 v = u8 (v / 2 ^ 24) ∷ u8 (v / 2 ^ 16) ∷ u8 (v / 2 ^ 8) ∷ u8 v ∷ []

unfoldable pub put_u64 : ℕ → List ℕ
put_u64 v =
    u8 (v / 2 ^ 56)
    ∷ u8 (v / 2 ^ 48)
    ∷ u8 (v / 2 ^ 40)
    ∷ u8 (v / 2 ^ 32)
    ∷ u8 (v / 2 ^ 24)
    ∷ u8 (v / 2 ^ 16)
    ∷ u8 (v / 2 ^ 8)
    ∷ u8 v
    ∷ []

-- `Uint16`, `Uint32` and `Uint64`: the word that the bytes spell, highest first.
unfoldable pub be_acc : ℕ → List ℕ → ℕ
be_acc acc [] = acc
be_acc acc (b ∷ bs) = be_acc (acc * 256 + b) bs

unfoldable pub big_endian : List ℕ → ℕ
unfolding be_acc
big_endian = be_acc 0

pub big_endian-put_u16 : (v : ℕ) → v < 2 ^ 16 → big_endian (put_u16 v) ≡ v
unfolding big_endian put_u16
big_endian-put_u16 v h = omega arith

pub big_endian-put_u32 : (v : ℕ) → v < 2 ^ 32 → big_endian (put_u32 v) ≡ v
unfolding big_endian put_u32
big_endian-put_u32 v h = omega arith

pub big_endian-put_u64 : (v : ℕ) → v < 2 ^ 64 → big_endian (put_u64 v) ≡ v
unfolding big_endian put_u64
big_endian-put_u64 v h = omega arith

pub put_u16-IsBytes : (v : ℕ) → IsBytes (put_u16 v)
unfolding put_u16
put_u16-IsBytes v = omega arith

pub put_u32-IsBytes : (v : ℕ) → IsBytes (put_u32 v)
unfolding put_u32
put_u32-IsBytes v = omega arith

pub put_u64-IsBytes : (v : ℕ) → IsBytes (put_u64 v)
unfolding put_u64
put_u64-IsBytes v = omega arith

-- The other way round, for four bytes.
pub put_u32-big_endian :
    (a b c d : ℕ)
    → IsBytes (a ∷ b ∷ c ∷ d ∷ [])
    → put_u32 (u32 (big_endian (a ∷ b ∷ c ∷ d ∷ []))) ≡ a ∷ b ∷ c ∷ d ∷ []
unfolding big_endian put_u32
put_u32-big_endian a b c d h = ground arith

pub big_endian_four :
    (a b c d : ℕ) → IsBytes (a ∷ b ∷ c ∷ d ∷ []) → big_endian (a ∷ b ∷ c ∷ d ∷ []) < 2 ^ 32
unfolding big_endian
big_endian_four a b c d h = omega arith

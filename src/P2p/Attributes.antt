-- ===== src/P2p/Attributes.antt =====
-- Fields of the buffer, and attributes that the loop steps over.
use rathole_pro.Prelude.{
  ℕ, suc, ◌+◌, ◌*◌, ◌/◌, ◌≤◌, ◌<◌, ◌≡◌, ◌≢◌, List, ◌++◌, append_assoc, some, length, length-append,
  length-drop, drop, drop-drop, take-length-append, drop-length-append, arith, ◌⊎◌,
}
use rathole_pro.Prelude.Words.{put_u16, big_endian, big_endian-put_u16}
use rathole_pro.P2p.{field, aligned, scan}

-- A field whose bytes stand at `from`.
pub field_lem :
    (buf : List ℕ) (from : ℕ) (xs rest : List ℕ)
    → 0 < length xs
    → drop from buf ≡ xs ++ rest
    → field buf from (length xs) ≡ some (big_endian xs)
field_lem buf from xs rest h e =
    ground (arith, length-drop from buf, length-append xs rest, take-length-append xs rest)

-- The bytes behind a part of `k` bytes.
pub drop_past :
    (buf : List ℕ) (pos : ℕ) (xs rest : List ℕ)
    → drop pos buf ≡ xs ++ rest
    → drop (pos + length xs) buf ≡ rest
drop_past buf pos xs rest e =
    ground (arith, drop-drop pos (length xs) buf, drop-length-append xs rest)

-- Another attribute: its type, its length, and its value padded to four bytes.
pub record Attribute : Type 0 where
  pub kind : ℕ
  pub size : ℕ
  pub padded : List ℕ

abbrev pub IsOther : Attribute → Type 0
IsOther a =
    (a.kind < 65536)
    × (a.size < 65533)
    × (length a.padded ≡ (a.size + 3) / 4 * 4)
    × ((a.kind ≢ 0x0020) ⊎ (a.size < 8))

abbrev pub attribute_bytes : Attribute → List ℕ
attribute_bytes a = put_u16 a.kind ++ (put_u16 a.size ++ a.padded)

-- One round over such an attribute.
pub scan_other :
    (fuel : ℕ) (buf : List ℕ) (n msg_len pos : ℕ) (a : Attribute) (rest : List ℕ)
    → IsOther a
    → drop pos buf ≡ attribute_bytes a ++ rest
    → pos + 4 ≤ n
    → pos + 4 ≤ 20 + msg_len
    → scan (suc fuel) buf n msg_len pos ≡ scan fuel buf n msg_len (pos + length (attribute_bytes a))
unfolding scan aligned put_u16
scan_other fuel buf n msg_len pos a rest h e p q = ground (
  arith,
  field_lem buf pos (put_u16 a.kind) (put_u16 a.size ++ (a.padded ++ rest)),
  field_lem buf (pos + 2) (put_u16 a.size) (a.padded ++ rest),
  drop_past buf pos (put_u16 a.kind) (put_u16 a.size ++ (a.padded ++ rest)),
  append_assoc (put_u16 a.kind) (put_u16 a.size ++ a.padded) rest,
  append_assoc (put_u16 a.size) a.padded rest,
  big_endian-put_u16 a.kind,
  big_endian-put_u16 a.size,
)

-- ===== src/Udp/Sessions.antt =====
-- `map[string]*udpSession`, with the bytes of a text for its key.
use rathole_pro.Prelude.{
  ℕ, ◌≡◌, refl, Bool, false, List, [], ◌∷◌, Option, none, some, if◌then◌else◌, arith,
}
unfoldable pub use rathole_pro.Prelude.Text.{bytes_eq}
pub use rathole_pro.Prelude.Text.{bytes_eq_refl, bytes_eq→eq}

abbrev pub Table : Type 0 → Type 0
Table V = List (List ℕ × V)

module _ {V : Type 0} where
  unfoldable pub find : List ℕ → Table V → Option V
  find k [] = none
  find k ((j, v) ∷ m) = if bytes_eq j k then some v else find k m

  unfoldable pub store : List ℕ → V → Table V → Table V
  store k v [] = (k, v) ∷ []
  store k v ((j, w) ∷ m) = if bytes_eq j k then (k, v) ∷ m else (j, w) ∷ store k v m

  unfoldable pub delete_if : (V → Bool) → Table V → Table V
  delete_if drop [] = []
  delete_if drop ((j, w) ∷ m) =
      let rest = delete_if drop m in if drop w then rest else (j, w) ∷ rest

  pub find-store :
      (k j : List ℕ) (v : V) (m : Table V)
      → find j (store k v m) ≡ (if bytes_eq k j then some v else find j m)
  unfolding find store
  find-store k j v [] = refl
  find-store k j v ((i, w) ∷ m) = ground (
    arith,
    bytes_eq→eq k j,
    bytes_eq→eq i k,
    bytes_eq→eq i j,
    bytes_eq_refl k,
    bytes_eq_refl j,
    bytes_eq_refl i,
    find-store k j v m,
  )

  -- What is found after the cleanup was found before, and is not to be dropped.
  pub find-delete_if-none :
      (drop : V → Bool) (k : List ℕ) (m : Table V)
      → find k m ≡ none
      → find k (delete_if drop m) ≡ none
  unfolding find delete_if
  find-delete_if-none drop k [] h = refl
  find-delete_if-none drop k ((j, w) ∷ m) h = ground (arith, find-delete_if-none drop k m)

  pub find-delete_if_keeps :
      (drop : V → Bool) (k : List ℕ) (m : Table V) (v : V)
      → find k m ≡ some v
      → drop v ≡ false
      → find k (delete_if drop m) ≡ some v
  unfolding find delete_if
  find-delete_if_keeps drop k [] v h e = h
  find-delete_if_keeps drop k ((j, w) ∷ m) v h e = ground (arith, find-delete_if_keeps drop k m v)

  pub find-delete_if_drops :
      (drop : V → Bool) (k : List ℕ) (m : Table V) (v : V)
      → find k (delete_if drop m) ≡ some v
      → drop v ≡ false
  unfolding find delete_if
  find-delete_if_drops drop k [] v h = cc
  find-delete_if_drops drop k ((j, w) ∷ m) v h = ground (arith, find-delete_if_drops drop k m v)

-- ===== src/Prelude/Dict.antt =====
-- Go's `map[string]V` as a list of entries.
use Prim.Native.String.{String}
use mathlib.Core.Path.{◌≡◌, refl}
use mathlib.Core.Option.{Option, none, some}
use mathlib.Core.List.{List, [], ◌∷◌}
use native.Mathlib.Omega.{arith}
use text.Mathlib.Text.{◌==◌ as str_eq}
use text.Mathlib.TextEquality.{eq_iff}
use rathole_pro.Prelude.Tests.{if◌then◌else◌}

abbrev pub Dict {ℓ} : Type ℓ → Type ℓ
Dict V = List (String × V)

module _ {ℓ} {V : Type ℓ} where
  -- `m[name]` with its `ok`.
  unfoldable pub lookup : String → Dict V → Option V
  lookup name [] = none
  lookup name ((first, held) ∷ rest) = if str_eq first name then some held else lookup name rest

  -- `m[name] = value`
  unfoldable pub insert : String → V → Dict V → Dict V
  insert name value [] = (name, value) ∷ []
  insert name value ((first, held) ∷ rest) =
      if str_eq first name then (name, value) ∷ rest else (first, held) ∷ insert name value rest

  pub lookup-insert :
      (name other : String) (value : V) (m : Dict V)
      → lookup other (insert name value m)
        ≡ (if str_eq name other then some value else lookup other m)
  unfolding lookup insert
  lookup-insert name other value [] = refl
  lookup-insert name other value ((first, held) ∷ rest) = ground (
    arith,
    lookup-insert name other value rest,
    eq_iff first name,
    eq_iff first other,
    eq_iff name other,
  )

-- ===== src/Prelude/Exec.antt =====
-- Go's functions with an error result, over a state that they change. What was changed before an
-- error stays changed, so the state comes back beside the error too.
use Prim.Native.String.{String}
use mathlib.Core.Path.{◌≡◌, refl, ap}
use mathlib.Core.Logic.{◌⊎◌, inl, inr}
use mathlib.Core.Bool.{Bool}
use rathole_pro.Prelude.Tests.{if◌then◌else◌}

-- `errorf m` is `fmt.Errorf` of a message, its numbers and names left out; `wrapf m e` wraps `e`
-- behind it (`%w`).
-- `out_of_fuel` is no Go value: a loop of the model used up its rounds.
pub data Err : Type 0 where
  eof unexpected_eof closed_conn short_write out_of_fuel : Err
  errorf : String → Err
  wrapf : String → Err → Err

pub data Result {ℓ} (A : Type ℓ) : Type ℓ where
  ok : A → Result A
  err : Err → Result A

pub Result-cases {ℓ} :
    {A : Type ℓ} (r : Result A) → ((a : A) × (r ≡ ok a)) ⊎ ((e : Err) × (r ≡ err e))
Result-cases (ok a) = inl (a, refl)
Result-cases (err e) = inr (e, refl)

abbrev pub Exec {ℓ} : Type ℓ → Type ℓ → Type ℓ
Exec S A = S → Result A × S

module _ {ℓ} {S A : Type ℓ} where
  abbrev pub pure : A → Exec S A
  pure a s = (ok a, s)

  abbrev pub raise : Err → Exec S A
  raise e s = (err e, s)

  abbrev pub lift : Result A → Exec S A
  lift r s = (r, s)

  -- `if err != nil { return ..., fmt.Errorf("m: %w", err) }`
  abbrev pub wrap : String → Exec S A → Exec S A
  wrap m x s = let r = x s in elim r.0 [ ok a ↦ (ok a, r.1) | err e ↦ (err (wrapf m e), r.1) ]

  -- The error is a value for what follows.
  abbrev pub attempt : Exec S A → Exec S (Result A)
  attempt x s = let r = x s in (ok r.0, r.1)

module _ {ℓ} {S A B : Type ℓ} where
  infixl 5 ◌>>=◌ ◌>>◌
  abbrev pub ◌>>=◌ : Exec S A → (A → Exec S B) → Exec S B
  ◌>>=◌ x f s = let r = x s in elim r.0 [ ok a ↦ f a r.1 | err e ↦ (err e, r.1) ]

  abbrev pub ◌>>◌ : Exec S A → Exec S B → Exec S B
  x >> y = x >>= λ _. y

  -- A step that went well gives way to the next one.
  pub bind_ok :
      (x : Exec S A) (f : A → Exec S B) (s s' : S) (a : A) → x s ≡ (ok a, s') → (x >>= f) s ≡ f a s'
  bind_ok x f s s' a e =
      ap
        (λ (r : Result A × S). elim r.0 as (λ _. Result B × S) [
          | ok b ↦ f b r.1
          | err y ↦ (err y, r.1)
        ])
        e

module _ {ℓ} {S : Type ℓ} where
  abbrev pub done : Exec S (Unit {ℓ})
  done s = (ok tt, s)

  -- `if b { return ..., e }`
  abbrev pub fail_if : Bool → Err → Exec S (Unit {ℓ})
  fail_if b e s = (if b then err e else ok tt, s)

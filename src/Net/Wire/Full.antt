-- ===== src/Net/Wire/Full.antt =====
-- `io.ReadFull` over a `Read` that gives what it has.
use rathole_pro.Prelude.{
  ℕ, zero, suc, ◌+◌, ◌-◌, ◌≤◌, ◌<◌, ◌≡◌, ◌≢◌, List, [], ◌∷◌, ◌++◌, length, length-append, leb,
  Bool-cases, inl, inr, arith,
}
use rathole_pro.Prelude.Exec.{Err, out_of_fuel, ok, err, Result-cases, Exec}
use rathole_pro.Net.Wire.{full_loop, full_error}

full_loop_done :
    {S : Type 0} (read : ℕ → Exec S (List ℕ)) (fuel n : ℕ) (got : List ℕ) (s : S)
    → n ≤ length got
    → full_loop read fuel n got s ≡ (ok got, s)
unfolding full_loop
full_loop_done read zero n got s h = ground arith
full_loop_done read (suc fuel) n got s h = ground arith

-- A `Read` that gives all that is asked for is the only one.
pub full_loop_once :
    {S : Type 0} (read : ℕ → Exec S (List ℕ)) (fuel : ℕ) (xs : List ℕ) (s s' : S)
    → 0 < length xs
    → read (length xs) s ≡ (ok xs, s')
    → full_loop read (suc fuel) (length xs) [] s ≡ (ok xs, s')
unfolding full_loop
full_loop_once read fuel xs s s' pos e = ground (arith, full_loop_done read fuel (length xs) xs s')

full_error_lem : (got : List ℕ) (e : Err) → e ≢ out_of_fuel → full_error got e ≢ out_of_fuel
full_error_lem [] e h = h
full_error_lem (x ∷ xs) e h = ground arith

-- What a `Read` has to do for the loop to come to its end: give some bytes, or leave fewer to
-- come on the connection below, and fail with an error of Go.
pub record Advances {S : Type 0} (read : ℕ → Exec S (List ℕ)) (unread : S → ℕ) : Type 0 where
  pub returns : (n : ℕ) (s : S) → (read n s).0 ≢ err out_of_fuel
  pub never_more :
      (n : ℕ) (s : S) (xs : List ℕ) → (read n s).0 ≡ ok xs → unread (read n s).1 ≤ unread s
  pub some_less :
      (n : ℕ) (s : S) (xs : List ℕ)
      → 0 < n
      → (read n s).0 ≡ ok xs
      → unread (read n s).1 < unread s + length xs

-- As many rounds as bytes are asked for and bytes are below are enough.
pub full_loop-ne-out_of_fuel :
    {S : Type 0} (read : ℕ → Exec S (List ℕ)) (unread : S → ℕ) (a : Advances read unread)
    (fuel n : ℕ) (got : List ℕ) (s : S)
    → n - length got + unread s < fuel
    → (full_loop read fuel n got s).0 ≢ err out_of_fuel
unfolding full_loop
full_loop-ne-out_of_fuel read unread a zero n got s h = absurd (omega arith)
full_loop-ne-out_of_fuel read unread a (suc fuel) n got s h =
    elim (Bool-cases (leb n (length got))) [
      | inl enough ↦ ground arith
      | inr short ↦ elim (Result-cases (read (n - length got) s).0) [
        | inr (e, failed) ↦ ground (arith, a.returns (n - length got) s, full_error_lem got e)
        | inl (xs, gave) ↦ ground (
          arith,
          a.never_more (n - length got) s xs gave,
          a.some_less (n - length got) s xs (ground arith) gave,
          length-append got xs,
          full_loop-ne-out_of_fuel read unread a fuel n (got ++ xs) (read (n - length got) s).1,
        )
      ]
    ]

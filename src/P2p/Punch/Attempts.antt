-- ===== src/P2p/Punch/Attempts.antt =====
-- go-core/p2p/p2p.go: when a hole punch succeeds, and what it sends.
use native.Mathlib.Decide.{ℕ_discrete}
use mathlib.Core.Path.{subst}
use rathole_pro.Prelude.{
  ℕ, zero, suc, ◌+◌, ◌<◌, ◌≤◌, ◌≡◌, refl, arith, String, Bool, true, false, ◌⊎◌, inl, inr,
  Bool-cases,
}
use rathole_pro.P2p.Punch.{Read, is_from, punch_loop, hole_punch}

-- The first round that hears from the peer, or none of them.
abbrev pub IsFirst : String → (ℕ → Read) → ℕ → ℕ → Bool × ℕ → Type 0
IsFirst remote reads i limit r =
    ((k : ℕ) × (i ≤ k)
      × (k < limit)
      × (is_from remote (reads k) ≡ true)
      × ((j : ℕ) → i ≤ j → j < k → is_from remote (reads j) ≡ false)
      × (r ≡ (true, suc k)))
    ⊎ (((j : ℕ) → i ≤ j → j < limit → is_from remote (reads j) ≡ false) × (r ≡ (false, limit)))

-- A silent round in front of silent rounds.
silent_from :
    (remote : String) (reads : ℕ → Read) (i k : ℕ)
    → is_from remote (reads i) ≡ false
    → ((j : ℕ) → suc i ≤ j → j < k → is_from remote (reads j) ≡ false)
    → (j : ℕ) → i ≤ j
    → j < k
    → is_from remote (reads j) ≡ false
silent_from remote reads i k silent more j from below = elim (ℕ_discrete i j) [
  | yes same ↦ subst (λ x. is_from remote (reads x) ≡ false) same silent
  | no later ↦ more j (omega arith) below
]

punch_loop-IsFirst :
    (remote : String) (reads : ℕ → Read) (limit i left : ℕ)
    → i + left ≡ limit
    → IsFirst remote reads i limit (punch_loop remote reads i left)
unfolding punch_loop
punch_loop-IsFirst remote reads limit i zero e = inr (λ j from below. ground arith, ground (arith))
punch_loop-IsFirst remote reads limit i (suc left) e =
    elim (Bool-cases (is_from remote (reads i))) [
      | inl heard ↦
          inl (i, omega arith, omega arith, heard, (λ j from below. ground arith), rw heard refl)
      | inr silent ↦ elim (punch_loop-IsFirst remote reads limit (suc i) left (omega arith)) [
        | inl (k, from, below, heard, before, r) ↦
            inl (
              k,
              omega arith,
              below,
              heard,
              silent_from remote reads i k silent before,
              rw silent r,
            )
        | inr (all, r) ↦ inr (silent_from remote reads i limit silent all, rw silent r)
      ]
    ]

-- `HolePunch` succeeds in the first of its ten rounds that reads a datagram of at least one byte
-- from the peer, and sends one punch in that round and in each one before it; if no round does,
-- it fails after ten punches.
pub hole_punch-IsFirst :
    (remote : String) (reads : ℕ → Read) → IsFirst remote reads 0 10 (hole_punch remote reads)
unfolding hole_punch
hole_punch-IsFirst remote reads = punch_loop-IsFirst remote reads 10 0 10 refl

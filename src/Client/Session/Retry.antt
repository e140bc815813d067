-- ===== src/Client/Session/Retry.antt =====
-- go-core/client/client.go: when a goroutine of `Run` begins its sessions.
use rathole_pro.Prelude.{
  ℕ, zero, suc, ◌+◌, ◌*◌, ◌<◌, ◌≡◌, refl, ap, ◌∙◌, arith, List, [], ◌∷◌, length, get_or, take,
}
use rathole_pro.Client.Session.{session_starts}

unfoldable pub total : List ℕ → ℕ
total [] = 0
total (x ∷ xs) = x + total xs

length-session_starts :
    (interval now : ℕ) (durations : List ℕ)
    → length (session_starts interval now durations) ≡ length durations
unfolding session_starts
length-session_starts interval now [] = refl
length-session_starts interval now (d ∷ rest) =
    ap suc (length-session_starts interval (now + d + interval) rest)

nth-session_starts :
    (interval now n : ℕ) (durations : List ℕ)
    → n < length durations
    → get_or (session_starts interval now durations) n 0
      ≡ now + total (take n durations) + n * interval
unfolding session_starts total
nth-session_starts interval now n [] h = omega arith
nth-session_starts interval now zero (d ∷ rest) h = omega arith
nth-session_starts interval now (suc n) (d ∷ rest) h =
    nth-session_starts interval (now + d + interval) n rest (omega arith) ∙ omega arith

-- A loop of `Run` begins as many sessions as have ended, and the one with number n, counted from
-- 0, when the sessions before it have lasted what they last and the interval has passed after each
-- of them: never sooner, and never later.
pub get_or-session_starts :
    (interval now n : ℕ) (durations : List ℕ)
    → n < length durations
    → (length (session_starts interval now durations) ≡ length durations)
      × (get_or (session_starts interval now durations) n 0
          ≡ now + total (take n durations) + n * interval)
get_or-session_starts interval now n durations h =
    (length-session_starts interval now durations, nth-session_starts interval now n durations h)

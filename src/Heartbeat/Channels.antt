-- ===== src/Heartbeat/Channels.antt =====
-- The channels of a `Monitor`, in every order of the steps.
use rathole_pro.Prelude.{◌+◌, ◌≡◌, refl, if◌then◌else◌, arith}
use rathole_pro.Prelude.Int.{ℤ}
use rathole_pro.Heartbeat.{
  Monitor, new_monitor, close_dead, stop, Steps, starts, calls_stop, sees_stop, sends,
  fails_to_send, Reaches, here, then_step,
}

-- The closes of both channels together: none before `once` ran, and one after.
abbrev pub ClosesOnce : Monitor → Type 0
ClosesOnce m = m.stop_closes + m.dead_closes ≡ (if m.once_done then 1 else 0)

Steps-ClosesOnce : {m n : Monitor} → Steps m n → ClosesOnce m → ClosesOnce n
unfolding stop close_dead
Steps-ClosesOnce starts h = h
Steps-ClosesOnce {m = m} calls_stop h = ground arith
Steps-ClosesOnce (sees_stop busy closed) h = h
Steps-ClosesOnce (sends busy) h = h
Steps-ClosesOnce {m = m} (fails_to_send busy) h = ground arith

-- After any steps of a new monitor, in any order, its two channels are closed once between them if
-- the `Once` has run, and not at all if it has not.
pub Reaches-ClosesOnce :
    (interval timeout : ℤ) (m : Monitor) → Reaches (new_monitor interval timeout) m → ClosesOnce m
unfolding new_monitor
Reaches-ClosesOnce interval timeout m here = refl
Reaches-ClosesOnce interval timeout m (then_step {n = n} before s) =
    Steps-ClosesOnce s (Reaches-ClosesOnce interval timeout n before)

-- ===== src/Heartbeat/Settings.antt =====
-- The times of the heartbeat, which are positive whatever the caller asks for.
use rathole_pro.Prelude.{◌+◌, ◌*◌, ◌^◌, ◌<◌, ◌≡◌, true, false, arith}
use rathole_pro.Prelude.Int.{ℤ, pos, pos_part, ◌+ℤ◌, int64_of, not_positive}
use rathole_pro.Heartbeat.{ping_interval, monitor_timeout, new_monitor}

-- `NewTicker`, which panics otherwise, gets a positive interval, and the default timeouts of
-- `NewMonitor` is 10 seconds more than it, as long as that is an int64.
pub new_monitor_settings :
    (interval timeout : ℤ)
    → let m = new_monitor interval timeout in
      pos_part (ping_interval interval) + 10 * 10 ^ 9 < 2 ^ 63
      → (not_positive m.interval ≡ false)
        × (not_positive m.timeout ≡ false)
        × (not_positive timeout ≡ true → m.timeout ≡ pos (pos_part m.interval + 10 * 10 ^ 9))
unfolding new_monitor ping_interval monitor_timeout int64_of ◌+ℤ◌
new_monitor_settings interval timeout h = (ground arith, ground arith, ground arith)

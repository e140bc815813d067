-- ===== src/Heartbeat.antt =====
-- go-core/heartbeat/heartbeat.go: pings and pongs over the control protocol.
-- A read deadline that passes is the end of what the connection receives. The goroutine of a
-- `Monitor` and its callers run side by side, so they are a step relation.
pub mod Answers
pub mod Channels
pub mod Settings
use rathole_pro.Prelude.{
  ℕ, zero, suc, ◌+◌, ◌-◌, ◌*◌, ◌^◌, ◌<◌, ◌≡◌, Bool, true, false, Option, none, some, if◌then◌else◌,
}
use rathole_pro.Prelude.Int.{ℤ, pos, ◌+ℤ◌, int64_of, not_positive}
use rathole_pro.Prelude.Exec.{Err, Result, ok, err}
use rathole_pro.Net.Wire.{Wire}
use rathole_pro.Config.{is_some}
use rathole_pro.Protocol.{Json, Envelope, empty_envelope, read_message, write_message}

abbrev pub ping_envelope : Envelope
ping_envelope = record empty_envelope { ping = some tt }

abbrev pub pong_envelope : Envelope
pong_envelope = record empty_envelope { pong = some tt }

-- `interval` in `ServerHeartbeat` and `NewMonitor`, and `timeout` in `ClientHeartbeat`: times in
-- nanoseconds.
unfoldable pub ping_interval : ℤ → ℤ
ping_interval interval = if not_positive interval then pos (30 * 10 ^ 9) else interval

unfoldable pub read_timeout : ℤ → ℤ
read_timeout timeout = if not_positive timeout then pos (40 * 10 ^ 9) else timeout

-- `timeout` in `NewMonitor`: the sum of two int64s wraps around.
unfoldable pub monitor_timeout : ℤ → ℤ → ℤ
monitor_timeout interval timeout =
    if not_positive timeout
    then int64_of (ping_interval interval +ℤ pos (10 * 10 ^ 9)) 1
    else timeout

-- Where a loop returned, or that its rounds are used up.
pub data Ending : Type 0 where
  stopped out_of_rounds : Ending
  read_failed write_failed : Err → Ending

module _ {S : Type 0} ⦃w : Wire S⦄ (json : Json) where
  -- `ServerHeartbeat` for so many ticks.
  unfoldable pub server_heartbeat : ℕ → S → Ending × S
  server_heartbeat zero conn = (out_of_rounds, conn)
  server_heartbeat (suc ticks) conn =
      let w = write_message json ping_envelope conn in
      let more = server_heartbeat ticks w.1 in
      elim w.0 [ err e ↦ (write_failed e, w.1) | ok _ ↦ more ]

  -- `ClientHeartbeat`; `stop` says of each round whether `stopCh` is closed by then.
  unfoldable pub client_heartbeat : ℕ → (ℕ → Bool) → ℕ → S → Ending × S
  client_heartbeat zero stop round conn = (out_of_rounds, conn)
  client_heartbeat (suc fuel) stop round conn =
      let more = client_heartbeat fuel stop (round + 1) in
      let r = read_message json conn in
      let w = write_message json pong_envelope r.1 in
      if stop round then (stopped, conn) else elim r.0 [
        | err e ↦ (read_failed e, r.1)
        | ok env ↦
            if is_some env.ping
            then elim w.0 [ err e ↦ (write_failed e, w.1) | ok _ ↦ more w.1 ]
            else more r.1
      ]

-- `Monitor`: its two channels, its `sync.Once`, and how many goroutines of `Start` still run.
-- A channel counts how often it was closed; Go panics on the second time.
pub record Monitor : Type 0 where
  pub interval : ℤ
  pub timeout : ℤ
  pub stop_closes : ℕ
  pub dead_closes : ℕ
  pub once_done : Bool
  pub running : ℕ

unfoldable pub new_monitor : ℤ → ℤ → Monitor
new_monitor interval timeout = record {
  interval = ping_interval interval;
  timeout = monitor_timeout interval timeout;
  stop_closes = 0;
  dead_closes = 0;
  once_done = false;
  running = 0;
}

-- `once.Do(func() { close(m.Dead) })`
unfoldable pub close_dead : Monitor → Monitor
close_dead m =
    if m.once_done then m else record m { dead_closes = m.dead_closes + 1; once_done = true }

-- `Stop`: `once.Do(func() { close(m.stopCh) })`
unfoldable pub stop : Monitor → Monitor
stop m = if m.once_done then m else record m { stop_closes = m.stop_closes + 1; once_done = true }

-- One step of a goroutine or of a caller. When a tick and the closed channel are both there,
-- `select` takes either.
pub data Steps (m : Monitor) : Monitor → Type 0 where
  starts : Steps m (record m { running = m.running + 1 })
  calls_stop : Steps m (stop m)
  sees_stop : 0 < m.running → 0 < m.stop_closes → Steps m (record m { running = m.running - 1 })
  sends : 0 < m.running → Steps m m
  fails_to_send : 0 < m.running → Steps m (record (close_dead m) { running = m.running - 1 })

pub data Reaches (m : Monitor) : Monitor → Type 0 where
  here : Reaches m m
  then_step : {n k : Monitor} → Reaches m n → Steps n k → Reaches m k

-- ===== src/Client/Settings.antt =====
-- The numbers that `Run` works with are positive.
use rathole_pro.Prelude.{◌≡◌, false, arith}
use rathole_pro.Config.{ClientConfig, ServiceConfig}
use rathole_pro.Prelude.Int.{not_positive}
use rathole_pro.Client.{mux_conns, retry_interval}

-- Each service gets at least one session, and the wait before a retry is positive, whatever the
-- configuration says.
pub settings_positive :
    (svc : ServiceConfig) (cc : ClientConfig)
    → (not_positive (mux_conns svc cc) ≡ false) × (not_positive (retry_interval svc cc) ≡ false)
unfolding mux_conns retry_interval
settings_positive svc cc = (ground arith, ground arith)

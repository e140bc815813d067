-- ===== src/Client.antt =====
-- go-core/client/client.go: the settings of `Run`, and `authenticate`.
pub mod Meeting
pub mod Handshake
pub mod Settings
pub mod Session
use rathole_pro.Prelude.{
  ℕ, ◌+◌, ◌-◌, ◌*◌, ◌%◌, ◌^◌, ◌≡◌, String, Bool, true, false, not, List, [], ◌∷◌, Option, none,
  some, str_eq, if◌then◌else◌, leb, ltb,
}
use rathole_pro.Prelude.Int.{ℤ, pos, negsuc, int64, int64_of, not_positive}
use rathole_pro.Prelude.Exec.{Err, errorf, wrapf, Exec, raise, fail_if, done, wrap, ◌>>=◌, ◌>>◌}
use rathole_pro.Net.Wire.{Wire}
use rathole_pro.Config.{ClientConfig, ServiceConfig, get_service_token, service_type}
use rathole_pro.Protocol.{
  Json, Envelope, AuthRequest, AuthResponse, empty_envelope, read_message, write_message,
}

-- `uint32(n)` of an `int`.
unfoldable pub to_u32 : ℤ → ℕ
to_u32 (pos n) = n % 2 ^ 32
to_u32 (negsuc n) = 2 ^ 32 - 1 - n % 2 ^ 32

-- `muxConns` in `Run`: the service's number, else the client's, else 4.
unfoldable pub mux_conns : ServiceConfig → ClientConfig → ℤ
mux_conns svc cc =
    let n = if not_positive svc.mux_streams then cc.mux_connections else svc.mux_streams in
    if not_positive n then pos 4 else n

-- `time.Duration(n) * time.Second`: nanoseconds, which wrap around.
unfoldable pub seconds : ℤ → ℤ
seconds n = int64_of n (10 ^ 9)

-- `retryInterval` in `Run`.
unfoldable pub retry_interval : ServiceConfig → ClientConfig → ℤ
retry_interval svc cc =
    let n =
      if not_positive (seconds svc.retry_interval)
      then seconds cc.retry_interval
      else seconds svc.retry_interval in
    if not_positive n then pos (3 * 10 ^ 9) else n

-- The `Auth` message of a service.
abbrev pub auth_request : (String → String) → String → ServiceConfig → ClientConfig → AuthRequest
auth_request hash_token name svc cc = record {
  service_name = name;
  token_hash = hash_token (get_service_token svc.token cc.default_token);
  service_type = service_type svc;
  mux_enabled = true;
  mux_streams = to_u32 svc.mux_streams;
}

abbrev pub auth_envelope : (String → String) → String → ServiceConfig → ClientConfig → Envelope
auth_envelope hash_token name svc cc = record empty_envelope {
  auth = some (auth_request hash_token name svc cc);
}

abbrev pub check_response : {S : Type 0} → Option AuthResponse → Exec S (Unit {0})
check_response none = raise (errorf "expected AuthResp")
check_response (some r) = fail_if (not r.success) (wrapf "auth failed" (errorf r.message))

-- `encoding/json` and SHA-256 in hexadecimal are parameters.
module _ {S : Type 0} ⦃w : Wire S⦄ (json : Json) (hash_token : String → String) where
  unfoldable pub authenticate : String → ServiceConfig → ClientConfig → Exec S (Unit {0})
  authenticate name svc cc = do
    fail_if (str_eq (get_service_token svc.token cc.default_token) "")
        (errorf "no token for service")
    wrap "write auth" (write_message json (auth_envelope hash_token name svc cc))
    resp ← wrap "read auth resp" (read_message json)
    check_response resp.auth_resp

-- ===== src/Config.antt =====
-- go-core/config/config.go: the configuration and its defaults.
pub mod Laws
use rathole_pro.Prelude.{
  ℕ, ◌≡◌, String, Bool, true, false, not, ◌&&◌, ◌||◌, List, Option, none, some, str_eq,
  if◌then◌else◌,
}
use rathole_pro.Prelude.Int.{ℤ}
use rathole_pro.Prelude.Dict.{Dict}
use rathole_pro.Prelude.Exec.{Err, Result, ok, err, errorf, wrapf}

pub record TlsConfig : Type 0 where
  pub trusted_root : String
  pub pkcs12 : String
  pub hostname : String
  pub auto_cert : Bool
  pub cert_dir : String
  pub hosts : List String

pub record NoiseConfig : Type 0 where
  pub pattern_name : String
  pub local_private_key : String
  pub remote_public_key : String

pub record WebSocketConfig : Type 0 where
  pub path : String

-- `Type` is spelled `kind`: the word is reserved.
pub record TransportConfig : Type 0 where
  pub kind : String
  pub tls : Option TlsConfig
  pub noise : Option NoiseConfig
  pub web_socket : Option WebSocketConfig

pub record ServiceConfig : Type 0 where
  pub kind : String
  pub token : String
  pub bind_addr : String
  pub local_addr : String
  pub nodelay : Bool
  pub mux_streams : ℤ
  pub max_mux_streams : ℤ
  pub retry_interval : ℤ

-- A map from names is a list of entries; the first one of a name counts.
pub record ServerConfig : Type 0 where
  pub bind_addr : String
  pub default_token : String
  pub heartbeat_interval : ℤ
  pub transport : Option TransportConfig
  pub services : Dict ServiceConfig

pub record ClientConfig : Type 0 where
  pub remote_addr : String
  pub default_token : String
  pub heartbeat_timeout : ℤ
  pub retry_interval : ℤ
  pub mux_connections : ℤ
  pub transport : Option TransportConfig
  pub services : Dict ServiceConfig

pub record Config : Type 0 where
  pub server : Option ServerConfig
  pub client : Option ClientConfig

abbrev pub is_some : {A : Type 0} → Option A → Bool
is_some none = false
is_some (some a) = true

unfoldable pub get_transport_type : Option TransportConfig → String
get_transport_type none = "tcp"
get_transport_type (some t) = if str_eq t.kind "" then "tcp" else t.kind

pub data RunMode : Type 0 where
  mode_server mode_client : RunMode

-- `Load`, from what `os.ReadFile` gave; `unmarshal` is `toml.Unmarshal`.
unfoldable pub load : (unmarshal : List ℕ → Result Config) → Result (List ℕ) → Result Config
load unmarshal (err e) = err (wrapf "cannot read" e)
load unmarshal (ok bytes) = elim (unmarshal bytes) [
  | err e ↦ err (wrapf "parse error" e)
  | ok cfg ↦
      if not (is_some cfg.server) && not (is_some cfg.client)
      then err (errorf "config must have [server] or [client] section")
      else ok cfg
]

unfoldable pub determine_mode : Config → Bool → Bool → RunMode
determine_mode cfg force_server force_client =
    if force_server
    then mode_server
    else (if force_client
        then mode_client
        else (if is_some cfg.server && not (is_some cfg.client)
            then mode_server
            else (if is_some cfg.client && not (is_some cfg.server)
                then mode_client
                else mode_server)))

unfoldable pub get_service_token : String → String → String
get_service_token svc_token default_token =
    if not (str_eq svc_token "") then svc_token else default_token

-- `svcType := svc.Type`, with the default that the server and the client both use.
unfoldable pub service_type : ServiceConfig → String
service_type svc = if str_eq svc.kind "" then "tcp" else svc.kind

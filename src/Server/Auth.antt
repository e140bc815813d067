-- ===== src/Server/Auth.antt =====
-- `handleClientConn`, `sendAuthFail`, `handleVisitor` and the pools that `Run` makes, of
-- go-core/server/server.go.
-- The section's parameters are `encoding/json`, SHA-256 in hexadecimal and `yamux.Server`.
pub mod Admission
pub mod Setup
pub mod Visits
use rathole_pro.Prelude.{
  ℕ, ◌≡◌, String, Bool, true, false, not, List, [], ◌∷◌, ◌++◌, Option, none, some, str_eq,
  if◌then◌else◌,
}
use rathole_pro.Prelude.Dict.{Dict, lookup, insert}
use rathole_pro.Prelude.Exec.{Err, Result, ok, err}
use rathole_pro.Net.{Conn}
use rathole_pro.Net.Wire.{Wire, close, conn_wire}
use rathole_pro.Config.{ServerConfig, ServiceConfig, get_service_token, service_type}
use rathole_pro.Protocol.{
  Json, Envelope, AuthRequest, AuthResponse, empty_envelope, read_message, write_message,
}
use rathole_pro.Server.Pool.{
  SessionPool, UdpPool, empty_pool, empty_udp_pool, add, udp_add, pick, remove,
}

-- The pools that all goroutines share.
pub record Pools : Type 0 where
  pub tcp : Dict SessionPool
  pub udp : Dict UdpPool

-- One round of the first loop of `Run`.
unfoldable pub with_pool : String → ServiceConfig → Pools → Pools
with_pool name svc pools =
    if str_eq (service_type svc) "udp"
    then record pools { udp = insert name empty_udp_pool pools.udp }
    else record pools { tcp = insert name empty_pool pools.tcp }

-- The loop over the services.
unfoldable pub make_pools : Dict ServiceConfig → Pools → Pools
make_pools [] pools = pools
make_pools ((name, svc) ∷ rest) pools = make_pools rest (with_pool name svc pools)

-- Where `handleClientConn` returned, or the session that it waits on.
pub data Outcome : Type 0 where
  read_auth : Err → Outcome
  expected_auth unknown_service no_token bad_token no_pool : Outcome
  write_response : Err → Outcome
  yamux_error : Err → Outcome
  joined : ℕ → Outcome

pub record Served (S : Type 0) : Type 0 where
  pub outcome : Outcome
  pub conn : S
  pub pools : Pools
  pub closed_sessions : List ℕ

abbrev pub auth_response : Bool → String → Envelope
auth_response success message = record empty_envelope {
  auth_resp = some (record { success = success; message = message; session_id = "" });
}

module _ {S : Type 0} ⦃w : Wire S⦄ (json : Json) (hash_token : String → String)
    (yamux_server : S → Result ℕ) where
  -- `sendAuthFail`: the response, its error ignored, and the end of the connection.
  unfoldable pub send_auth_fail : S → String → S
  send_auth_fail conn message = (close (write_message json (auth_response false message) conn).1).1

  -- From the session on: into the pool of its service.
  unfoldable pub join_pool : String → String → ℕ → S → Pools → Served S
  join_pool name kind session conn pools =
      if str_eq kind "udp"
      then elim (lookup name pools.udp) [
        | none ↦ record {
          outcome = no_pool;
          conn = conn;
          pools = pools;
          closed_sessions = session ∷ [];
        }
        | some pool ↦ record {
          outcome = joined session;
          conn = conn;
          pools = record pools { udp = insert name (udp_add pool session) pools.udp };
          closed_sessions = [];
        }
      ]
      else elim (lookup name pools.tcp) [
        | none ↦ record {
          outcome = no_pool;
          conn = conn;
          pools = pools;
          closed_sessions = session ∷ [];
        }
        | some pool ↦ record {
          outcome = joined session;
          conn = conn;
          pools = record pools { tcp = insert name (add pool session) pools.tcp };
          closed_sessions = [];
        }
      ]

  -- From the accepted token on.
  unfoldable pub accept_client : String → ServiceConfig → S → Pools → Served S
  accept_client name svc conn pools =
      let w = write_message json (auth_response true "OK") conn in
      elim w.0 [
        | err e ↦ record {
          outcome = write_response e;
          conn = (close w.1).1;
          pools = pools;
          closed_sessions = [];
        }
        | ok _ ↦ elim (yamux_server w.1) [
          | err e ↦ record {
            outcome = yamux_error e;
            conn = (close w.1).1;
            pools = pools;
            closed_sessions = [];
          }
          | ok session ↦ join_pool name (service_type svc) session w.1 pools
        ]
      ]

  -- From the `Auth` message on.
  unfoldable pub check_auth : ServerConfig → AuthRequest → S → Pools → Served S
  check_auth sc auth conn pools = elim (lookup auth.service_name sc.services) [
    | none ↦ record {
      outcome = unknown_service;
      conn = send_auth_fail conn "unknown service";
      pools = pools;
      closed_sessions = [];
    }
    | some svc ↦
        let token = get_service_token svc.token sc.default_token in
        if str_eq token ""
        then record {
          outcome = no_token;
          conn = send_auth_fail conn "no token configured";
          pools = pools;
          closed_sessions = [];
        }
        else (if not (str_eq auth.token_hash (hash_token token))
            then record {
              outcome = bad_token;
              conn = send_auth_fail conn "bad token";
              pools = pools;
              closed_sessions = [];
            }
            else accept_client auth.service_name svc conn pools)
  ]

  unfoldable pub handle_client_conn : ServerConfig → S → Pools → Served S
  handle_client_conn sc conn pools =
      let r = read_message json conn in
      elim r.0 [
        | err e ↦ record {
          outcome = read_auth e;
          conn = (close r.1).1;
          pools = pools;
          closed_sessions = [];
        }
        | ok env ↦ elim env.auth [
          | none ↦ record {
            outcome = expected_auth;
            conn = (close r.1).1;
            pools = pools;
            closed_sessions = [];
          }
          | some auth ↦ check_auth sc auth r.1 pools
        ]
      ]

-- What became of a visitor.
pub data Visit : Type 0 where
  no_client : Visit
  open_failed : Err → Visit
  relayed : ℕ → ℕ → Visit

pub record Visited : Type 0 where
  pub visit : Visit
  pub visitor : Conn
  pub pool : SessionPool

-- `handleVisitor` up to the relay: `open_stream` is yamux's `Open`, and `is_closed` and
-- `closed_later` are what `IsClosed` answers before and after it.
unfoldable pub handle_visitor :
    (is_closed closed_later : ℕ → Bool) (open_stream : ℕ → Result ℕ) → Conn → SessionPool → Visited
handle_visitor is_closed closed_later open_stream visitor pool =
    let r = pick is_closed pool in
    elim r.0 [
      | none ↦ record { visit = no_client; visitor = (close visitor).1; pool = r.1 }
      | some session ↦ elim (open_stream session) [
        | err e ↦ record {
          visit = open_failed e;
          visitor = (close visitor).1;
          pool = if closed_later session then remove r.1 session else r.1;
        }
        | ok stream ↦ record { visit = relayed session stream; visitor = visitor; pool = r.1 }
      ]
    ]

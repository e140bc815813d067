-- ===== src/Server/Run.antt =====
-- `Run` and `acceptVisitors` of go-core/server/server.go: what is started for a service, and the
-- goroutine of a UDP service.
-- `listen` is what `net.Listen` gives for an address. The goroutines that `Run` starts are the
-- entries of a list; each of them goes on by itself.
pub mod Waiting
pub mod Listeners
pub mod Clients
use rathole_pro.Prelude.{
  ℕ, ◌≡◌, String, Bool, true, false, List, [], ◌∷◌, ◌++◌, Option, none, some, str_eq, if◌then◌else◌,
}
use rathole_pro.Prelude.Dict.{Dict}
use rathole_pro.Prelude.Exec.{
  Err, Result, ok, err, errorf, wrapf, Exec, fail_if, wrap, lift, done, ◌>>=◌, ◌>>◌,
}
use rathole_pro.Net.{Conn}
use rathole_pro.Config.{Config, ServerConfig, ServiceConfig, service_type}
use rathole_pro.Server.Pool.{SessionPool, UdpPool, udp_add, udp_pick}
use rathole_pro.Protocol.{Json}
use rathole_pro.Transport.Stream.{Stream, stream_wire}
use rathole_pro.Transport.Factory.{apply_server_transport}
use rathole_pro.Server.Auth.{handle_client_conn, Pools, make_pools, Visited, handle_visitor}

pub data Started : Type 0 where
  udp_server : String → String → Started
  visitors : String → String → Started

module _ (listen : String → Result (Unit {0})) where
  -- A round of the second loop of `Run`.
  unfoldable pub start_service : String → ServiceConfig → Exec (List Started) (Unit {0})
  start_service name svc started =
      if str_eq svc.bind_addr ""
      then (ok tt, started)
      else if str_eq (service_type svc) "udp"
      then (ok tt, started ++ udp_server name svc.bind_addr ∷ [])
      else elim (listen svc.bind_addr) [
        | err e ↦ (err (wrapf "listen visitor" e), started)
        | ok _ ↦ (ok tt, started ++ visitors name svc.bind_addr ∷ [])
      ]

  unfoldable pub start_services : Dict ServiceConfig → Exec (List Started) (Unit {0})
  start_services [] = done
  start_services ((name, svc) ∷ rest) = do start_service name svc; start_services rest

  -- `Run` up to its accept loop; `listen_control` is what `ServerListen` gives.
  unfoldable pub start : Result (Unit {0}) → Config → Exec (List Started) Pools
  start listen_control cfg = elim cfg.server [
    | none ↦ λ started. (err (errorf "no [server] section"), started)
    | some sc ↦ do
      wrap "listen control" (lift listen_control)
      start_services sc.services
      λ started. (ok (make_pools sc.services (record { tcp = []; udp = [] })), started)
  ]

-- `acceptVisitors`: the visitors that come before `Accept` fails. Each has its own goroutine; the
-- answers of yamux during its call come with it.
pub record Arrival : Type 0 where
  pub visitor : Conn
  pub is_closed : ℕ → Bool
  pub closed_later : ℕ → Bool
  pub open_stream : ℕ → Result ℕ

unfoldable pub accept_visitors : List Arrival → SessionPool → List Visited
accept_visitors [] pool = []
accept_visitors (v ∷ rest) pool =
    let r = handle_visitor v.is_closed v.closed_later v.open_stream v.visitor pool in
    r ∷ accept_visitors rest r.pool

-- A connection that the control listener accepted, with what the random source gives for its
-- upgrade, and what its reader takes ahead.
pub record Accepted : Type 0 where
  pub conn : Conn
  pub entropy : Result (List ℕ)
  pub random : ℕ → ℕ
  pub ahead : ℕ → ℕ

-- The accept loop of `Run`, for the connections that come and the errors of `Accept`, each
-- goroutine as a step in the order in which they come to the pools.
module _ (json : Json) (hash_token : String → String) (yamux_server : Stream → Result ℕ)
    (decode : String → Option (List ℕ)) (base64 sha1 : List ℕ → List ℕ) where
  abbrev pub upgraded : ServerConfig → Accepted → Result Stream
  upgraded sc a =
      (apply_server_transport decode a.entropy base64 sha1 a.random a.ahead sc.transport a.conn).0

  -- The goroutine of a connection, which starts once the upgrade went well.
  unfoldable pub admit : ServerConfig → Result Stream → Pools → Pools
  admit sc (err e) pools = pools
  admit sc (ok stream) pools =
      (handle_client_conn json hash_token yamux_server sc stream pools).pools

  unfoldable pub control_loop : ServerConfig → List (Result Accepted) → Pools → Pools
  control_loop sc [] pools = pools
  control_loop sc (err e ∷ rest) pools = control_loop sc rest pools
  control_loop sc (ok a ∷ rest) pools = control_loop sc rest (admit sc (upgraded sc a) pools)

-- The goroutine of a UDP service: where it stands, its pool, and the streams it has served.
pub data Phase : Type 0 where
  picking : Phase
  blocked : Phase
  opening : ℕ → Phase
  serving : ℕ → Phase

pub record UdpLoop : Type 0 where
  pub phase : Phase
  pub pool : UdpPool
  pub served : List ℕ

unfoldable pub new_udp_loop : UdpPool → UdpLoop
new_udp_loop pool = record { phase = picking; pool = pool; served = [] }

-- The goroutine picks, opens a stream, and returns from `ServerUDP`; a client's goroutine adds
-- its session.
pub data LoopEvent : Type 0 where
  picks : (ℕ → Bool) → LoopEvent
  opens : Result ℕ → LoopEvent
  returns : LoopEvent
  joins : ℕ → LoopEvent

-- A receive from a channel that nobody else has never ends.
abbrev after_pick : Option ℕ → Phase
after_pick none = blocked
after_pick (some session) = opening session

abbrev on_pick : (ℕ → Bool) → UdpLoop → UdpLoop
on_pick is_closed l =
    let r = udp_pick is_closed l.pool in record l { phase = after_pick r.0; pool = r.1 }

abbrev on_open : Result ℕ → UdpLoop → UdpLoop
on_open (err e) l = record l { phase = picking }
on_open (ok stream) l = record l { phase = serving stream; served = l.served ++ stream ∷ [] }

-- An event that is not the goroutine's next one changes nothing.
abbrev loop_turn : Phase → LoopEvent → UdpLoop → UdpLoop
loop_turn picking (picks is_closed) l = on_pick is_closed l
loop_turn picking (opens r) l = l
loop_turn picking returns l = l
loop_turn picking (joins s) l = record l { pool = udp_add l.pool s }
loop_turn blocked (picks is_closed) l = l
loop_turn blocked (opens r) l = l
loop_turn blocked returns l = l
loop_turn blocked (joins s) l = record l { pool = udp_add l.pool s }
loop_turn (opening session) (picks is_closed) l = l
loop_turn (opening session) (opens r) l = on_open r l
loop_turn (opening session) returns l = l
loop_turn (opening session) (joins s) l = record l { pool = udp_add l.pool s }
loop_turn (serving stream) (picks is_closed) l = l
loop_turn (serving stream) (opens r) l = l
loop_turn (serving stream) returns l = record l { phase = picking }
loop_turn (serving stream) (joins s) l = record l { pool = udp_add l.pool s }

unfoldable pub loop_step : LoopEvent → UdpLoop → UdpLoop
loop_step e l = loop_turn l.phase e l

unfoldable pub udp_loop : List LoopEvent → UdpLoop → UdpLoop
udp_loop [] l = l
udp_loop (e ∷ es) l = udp_loop es (loop_step e l)

-- ===== src/Runs/Starts.antt =====
-- What a server and a client start, and a session of each.
use rathole_pro.Prelude.{
  ◌≡◌, refl, String, true, false, List, [], ◌∷◌, ◌++◌, All, none, some, take, replicate, arith,
}
use rathole_pro.Prelude.Int.{pos}
use rathole_pro.Prelude.Exec.{Result, ok}
use rathole_pro.Net.{Conn}
use rathole_pro.Transport.Stream.{stream_wire}
use rathole_pro.Config.{Config, ServerConfig, ServiceConfig, service_type}
use rathole_pro.Server.Auth.{Pools, make_pools}
use rathole_pro.Server.Run.{
  Started, udp_server, visitors, start, start_services, start_service, UdpLoop, new_udp_loop, picks,
  opens, joins, blocked, udp_loop,
}
use rathole_pro.Server.Run.Listeners.{wanted, IsBacked, start-wanted}
use rathole_pro.Server.Run.Waiting.{udp_loop-blocked}
use rathole_pro.P2p.Punch.{address_message, exchange}
use rathole_pro.P2p.Punch.Exchange.{exchange-address_message}
use rathole_pro.Main.{Flags}

abbrev service : String → String → ServiceConfig
service kind bind_addr = record {
  kind = kind;
  token = "t";
  bind_addr = bind_addr;
  local_addr = "l:1";
  nodelay = false;
  mux_streams = pos 0;
  max_mux_streams = pos 0;
  retry_interval = pos 0;
}

abbrev server : ServerConfig
server = record {
  bind_addr = "s:1";
  default_token = "t";
  heartbeat_interval = pos 0;
  transport = none;
  services = ("web", service "" "v:1") ∷ ("dns", service "udp" "v:2") ∷ ("off", service "" "") ∷ [];
}

abbrev config : Config
config = record { server = some server; client = none }

abbrev listen : String → Result (Unit {0})
listen addr = ok tt

abbrev pools : Pools
pools = make_pools server.services (record { tcp = []; udp = [] })

abbrev started : List Started
started = visitors "web" "v:1" ∷ udp_server "dns" "v:2" ∷ []

starts : start listen (ok tt) config [] ≡ (ok pools, started)
unfolding start start_services start_service service_type
starts = refl

start-wanted_example : (started ≡ wanted server.services) × All (IsBacked pools) started
start-wanted_example = start-wanted listen (ok tt) config server pools started refl starts

abbrev idle : UdpLoop
idle = new_udp_loop (record { sessions = 4 ∷ [] })

udp_loop-blocked_example :
    ((udp_loop (picks (λ s. true) ∷ joins 7 ∷ picks (λ s. false) ∷ opens (ok 1) ∷ []) idle).phase
      ≡ blocked)
    × ((udp_loop (picks (λ s. true) ∷ joins 7 ∷ picks (λ s. false) ∷ opens (ok 1) ∷ []) idle).served
        ≡ [])
unfolding new_udp_loop
udp_loop-blocked_example =
    udp_loop-blocked idle (λ s. true) (joins 7 ∷ picks (λ s. false) ∷ opens (ok 1) ∷ []) refl
      (refl, tt)

abbrev signaling : Conn
signaling = record {
  incoming = address_message (8 ∷ 9 ∷ 7 ∷ []) ++ 1 ∷ [];
  outgoing = [];
  room = 10;
  closed = false;
}

exchange-address_message_example : exchange (λ i. 2) (5 ∷ []) signaling ≡ (
  ok (take 2 (8 ∷ 9 ∷ 7 ∷ []) ++ replicate 1 0),
  record { incoming = 7 ∷ 1 ∷ []; outgoing = address_message (5 ∷ []); room = 7; closed = false },
)
exchange-address_message_example =
    exchange-address_message (λ i. 2) signaling (5 ∷ []) (8 ∷ 9 ∷ 7 ∷ []) (1 ∷ []) 8 (9 ∷ 7 ∷ [])
      refl (omega arith) refl (omega arith) refl (omega arith)

abbrev flags : Flags
flags = record {
  force_server = false;
  force_client = false;
  short_s = false;
  short_c = false;
  validate = false;
  show_version = false;
  gen_key = false;
  args = "c.toml" ∷ [];
}

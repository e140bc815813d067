-- ===== src/Client/Session.antt =====
-- go-core/client/client.go: the goroutines of `Run`, a session of one of them, and its streams.
-- A session is modelled on any `net.Conn`: `dialled` is what `dialWithTransport` returned.
-- `yamux_client` is yamux's `Client`, whose session closes the connection when it is closed.
pub mod Returns
pub mod Retry
pub mod NoiseEnds
pub mod OverStream
pub mod WsEnds
pub mod OverNoise
pub mod OverWs
use rathole_pro.Prelude.{
  ℕ, zero, suc, ◌+◌, ◌≡◌, String, Bool, true, false, List, [], ◌∷◌, ◌++◌, Option, none, some,
  str_eq, if◌then◌else◌,
}
use rathole_pro.Prelude.Int.{ℤ, pos, negsuc}
use rathole_pro.Prelude.Dict.{Dict}
use rathole_pro.Prelude.Exec.{Err, Result, ok, err, errorf, wrapf}
use rathole_pro.Net.{Conn}
use rathole_pro.Net.Wire.{Wire, close, conn_wire}
use rathole_pro.Config.{Config, ClientConfig, ServiceConfig, service_type}
use rathole_pro.Protocol.{Json}
use rathole_pro.Client.{authenticate, mux_conns, retry_interval}

-- What a session has returned, its connection, and the streams that it has passed on.
pub record Ended (S : Type 0) : Type 0 where
  pub error : Option Err
  pub conn : Option S
  pub streams : List ℕ

abbrev failed : {S : Type 0} → Err → Ended S
failed e = record { error = some e; conn = none; streams = [] }

-- `conn.Close()` before the error is returned.
abbrev closing : {S : Type 0} ⦃w : Wire S⦄ → Option Err → S → List ℕ → Ended S
closing e conn streams = record { error = e; conn = some (close conn).1; streams = streams }

module _ {S : Type 0} ⦃w : Wire S⦄ (json : Json) (hash_token : String → String)
    (yamux_client : S → Result ℕ) where
  -- `accepts` is what `session.Accept` gives: streams, and then an error.
  unfoldable pub run_tcp_session :
      (accepts : ℕ → List ℕ × Err) → Result S → String → ServiceConfig → ClientConfig → Ended S
  run_tcp_session accepts (err e) name svc cc = failed e
  run_tcp_session accepts (ok conn) name svc cc =
      let r = authenticate json hash_token name svc cc conn in
      elim r.0 [
        | err e ↦ closing (some e) r.1 []
        | ok _ ↦ elim (yamux_client r.1) [
          | err e ↦ closing (some (wrapf "yamux client" e)) r.1 []
          | ok session ↦
              closing (some (wrapf "yamux accept" (accepts session).1)) r.1 (accepts session).0
        ]
      ]

  -- `client_udp` is what `ClientUDP` returned on the stream.
  unfoldable pub run_udp_session :
      (accept : ℕ → Result ℕ)
      → (client_udp : ℕ → Option Err) → Result S
      → String
      → ServiceConfig
      → ClientConfig
      → Ended S
  run_udp_session accept client_udp (err e) name svc cc = failed e
  run_udp_session accept client_udp (ok conn) name svc cc =
      let r = authenticate json hash_token name svc cc conn in
      elim r.0 [
        | err e ↦ closing (some e) r.1 []
        | ok _ ↦ elim (yamux_client r.1) [
          | err e ↦ closing (some (wrapf "yamux client" e)) r.1 []
          | ok session ↦ elim (accept session) [
            | err e ↦ closing (some (wrapf "yamux accept (UDP)" e)) r.1 []
            | ok stream ↦ closing (client_udp stream) r.1 (stream ∷ [])
          ]
        ]
      ]

-- What `handleTCPStream` did with a stream.
pub data StreamEnd : Type 0 where
  no_local_addr : Conn → StreamEnd
  connect_local : Err → Conn → StreamEnd
  relaying : Conn → Conn → StreamEnd

unfoldable pub handle_tcp_stream : (dial : String → Result Conn) → String → Conn → StreamEnd
handle_tcp_stream dial local_addr stream =
    if str_eq local_addr "" then no_local_addr (close stream).1 else elim (dial local_addr) [
      | err e ↦ connect_local e (close stream).1
      | ok local ↦ relaying stream local
    ]

-- A goroutine of `Run`: the service, its index, and what it waits after a session.
pub record Worker : Type 0 where
  pub name : String
  pub idx : ℕ
  pub is_udp : Bool
  pub interval : ℤ

-- The inner loop of `Run`, from `i` on.
unfoldable pub mux_workers : String → ServiceConfig → ClientConfig → ℕ → ℕ → List Worker
mux_workers name svc cc i zero = []
mux_workers name svc cc i (suc n) =
    record {
      name = name;
      idx = i;
      is_udp = str_eq (service_type svc) "udp";
      interval = retry_interval svc cc;
    }
    ∷ mux_workers name svc cc (suc i) n

abbrev count_of : ℤ → ℕ
count_of (pos n) = n
count_of (negsuc n) = 0

unfoldable pub workers : Dict ServiceConfig → ClientConfig → List Worker
workers [] cc = []
workers ((name, svc) ∷ rest) cc =
    mux_workers name svc cc 0 (count_of (mux_conns svc cc)) ++ workers rest cc

-- The goroutines that `Run` starts.
unfoldable pub client_run : Config → Result (List Worker)
client_run cfg = elim cfg.client [
  | none ↦ err (errorf "no [client] section")
  | some cc ↦ ok (workers cc.services cc)
]

-- The loop of a goroutine: when its sessions begin, if they last as long as given.
unfoldable pub session_starts : (interval : ℕ) → (now : ℕ) → (durations : List ℕ) → List ℕ
session_starts interval now [] = []
session_starts interval now (d ∷ rest) = now ∷ session_starts interval (now + d + interval) rest

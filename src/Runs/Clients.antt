-- ===== src/Runs/Clients.antt =====
-- Two clients behind the noise transport, one of which sends nothing, and a failed `Accept`.
use rathole_pro.Prelude.{ℕ, ◌≡◌, refl, false, List, [], ◌∷◌, ◌++◌, none, some, replicate}
use rathole_pro.Prelude.Dict.{lookup}
use rathole_pro.Prelude.Exec.{Result, ok, err, eof}
use rathole_pro.Config.{ServerConfig, TransportConfig}
use rathole_pro.Transport.Noise.{clamp_key, scalar_base_mult, scalar_mult}
use rathole_pro.Transport.Stream.{Stream, noise_stream}
use rathole_pro.Transport.Stream.Messages.{message_bytes}
use rathole_pro.Client.Handshake.{end_of}
use rathole_pro.Server.Pool.{empty_pool}
use rathole_pro.Server.Run.{Accepted, control_loop}
use rathole_pro.Server.Run.Clients.{HasProven, control_loop-HasProven}
use rathole_pro.Runs.Auth.{codec, hash, yamux, server_config, pools}
use rathole_pro.Runs.Noise.{config, decode}

abbrev pub noise : TransportConfig
noise = record { kind = "noise"; tls = none; noise = some config; web_socket = none }

abbrev pub noise_config : ServerConfig
noise_config = record server_config { transport = some noise }

abbrev accepted : List ℕ → Accepted
accepted incoming = record {
  conn = record { incoming = incoming; outgoing = []; room = 100; closed = false };
  entropy = ok (replicate 32 7);
  random = λ i. i;
  ahead = λ i. 0;
}

abbrev base64 : List ℕ → List ℕ
base64 b = b

abbrev client_public : List ℕ
client_public = scalar_base_mult (clamp_key (replicate 32 200))

abbrev key : List ℕ
key = scalar_mult (clamp_key (replicate 32 7)) client_public

abbrev client : Stream
client = noise_stream (record { raw = end_of [] [] 100; enc_key = key; dec_key = key })

abbrev conns : List (Result Accepted)
conns =
    ok (accepted []) ∷ err eof ∷ ok (accepted (client_public ++ message_bytes client (1 ∷ []))) ∷ []

pool_there : lookup "web" pools.tcp ≡ some empty_pool
unfolding lookup
pool_there = refl

control_loop-HasProven_example :
    HasProven
      (codec "")
      hash
      yamux
      decode
      base64
      base64
      noise_config
      "web"
      conns
      empty_pool
      pools
      (control_loop (codec "") hash yamux decode base64 base64 noise_config conns pools)
control_loop-HasProven_example =
    control_loop-HasProven (codec "") hash yamux decode base64 base64 noise_config "web" conns pools
      empty_pool pool_there

-- ===== src/Runs/Noise.antt =====
-- A key exchange with fixed keys, and frames behind it.
use rathole_pro.Prelude.{
  ℕ, ◌≡◌, refl, String, false, List, [], ◌∷◌, ◌++◌, Option, some, replicate, length, ◌%◌, take,
  drop, arith,
}
use rathole_pro.Prelude.Exec.{ok}
use rathole_pro.Net.{Conn}
use rathole_pro.Config.{NoiseConfig}
use rathole_pro.Transport.Noise.{
  NoiseConn, xor_crypt, clamp_key, scalar_base_mult, noise_read, noise_write,
}
use rathole_pro.Transport.Noise.Exchange.{Ends, Agreed, exchange_agrees}
use rathole_pro.Transport.Noise.Framing.{noise_frame, noise_read-noise_write, noise_read_oversized}

abbrev pub config : NoiseConfig
config = record { pattern_name = "Noise_NK"; local_private_key = "key"; remote_public_key = "" }

abbrev pub decode : String → Option (List ℕ)
decode text = some (replicate 32 1)

abbrev conn_of : List ℕ → ℕ → Conn
conn_of incoming room = record { incoming = incoming; outgoing = []; room = room; closed = false }

abbrev ends : Ends decode config
ends = record {
  server = conn_of (scalar_base_mult (clamp_key (replicate 32 200)) ++ []) 100;
  client = conn_of (scalar_base_mult (clamp_key (replicate 32 7)) ++ []) 100;
  server_random = replicate 32 7;
  client_random = replicate 32 200;
  server_rest = [];
  client_rest = [];
  keyed = refl;
  server_fits = (refl, refl, omega arith);
  client_fits = (refl, refl, omega arith);
  server_reads = refl;
  client_reads = refl;
}

exchange_agrees_example : Agreed decode config ends
exchange_agrees_example = exchange_agrees decode config ends

abbrev keyed_conn : List ℕ → NoiseConn
keyed_conn incoming = record {
  raw = conn_of incoming 100;
  enc_key = 5 ∷ 6 ∷ [];
  dec_key = 5 ∷ 6 ∷ [];
}

abbrev received : NoiseConn
received = keyed_conn ((noise_write (1 ∷ 2 ∷ 3 ∷ []) (keyed_conn [])).1.raw.outgoing ++ 9 ∷ [])

noise_read-noise_write_example :
    ((noise_write (1 ∷ 2 ∷ 3 ∷ []) (keyed_conn [])).0 ≡ ok 3)
    × (noise_read 2 received ≡ (ok (1 ∷ 2 ∷ []), keyed_conn (9 ∷ [])))
noise_read-noise_write_example =
    noise_read-noise_write 2 (1 ∷ 2 ∷ 3 ∷ []) (9 ∷ []) (keyed_conn []) received (omega arith) refl
      (omega arith) refl refl refl refl

abbrev large : List ℕ
large = replicate 65537 1

abbrev oversized : NoiseConn
oversized = keyed_conn (noise_frame (5 ∷ 6 ∷ []) large ++ [])

noise_read_oversized_example : noise_read 4 oversized ≡ (
  ok (take 4 (take (length large % 65536) large)),
  keyed_conn (drop (length large % 65536) (xor_crypt large (5 ∷ 6 ∷ [])) ++ []),
)
noise_read_oversized_example = noise_read_oversized 4 large [] oversized refl refl

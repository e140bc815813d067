-- ===== src/Transport/Factory/Refused.antt =====
-- go-core/server/server.go and go-core/client/client.go: what becomes of a connection whose
-- upgrade fails.
use rathole_pro.Prelude.{
  ℕ, ◌≡◌, refl, arith, String, true, false, List, Option, none, some, eq_iff, ◌⊎◌,
}
use rathole_pro.Prelude.Exec.{Err, Result, ok, err, Exec}
use rathole_pro.Net.{Conn, close, read_full, write}
use rathole_pro.Config.{NoiseConfig, TransportConfig}
use rathole_pro.Transport.Noise.{
  scalar_base_mult, clamp_key, noise_server_upgrade, noise_client_upgrade,
}
use rathole_pro.Transport.Factory.{
  or_close, as_noise, apply_server_transport, apply_client_transport,
}

-- The computation neither opens nor closes the connection.
abbrev Keeps : {A : Type 0} → Exec Conn A → Type 0
Keeps x = (c : Conn) → (x c).1.closed ≡ c.closed

read_full-Keeps : (n : ℕ) → Keeps (read_full n)
unfolding read_full
read_full-Keeps n c = ground (arith)

write-Keeps : (b : List ℕ) → Keeps (write b)
unfolding write
write-Keeps b c = ground (arith)

noise_server_upgrade-Keeps :
    (decode : String → Option (List ℕ)) (entropy : Result (List ℕ)) (cfg : Option NoiseConfig)
    → Keeps (noise_server_upgrade decode entropy cfg)
unfolding noise_server_upgrade
noise_server_upgrade-Keeps decode entropy none c = refl
noise_server_upgrade-Keeps decode (err e) (some cfg) c = ground (arith)
noise_server_upgrade-Keeps decode (ok eph) (some cfg) c = ground (
  arith,
  write-Keeps (scalar_base_mult (clamp_key eph)) c,
  read_full-Keeps 32 (write (scalar_base_mult (clamp_key eph)) c).1,
)

noise_client_upgrade-Keeps :
    (decode : String → Option (List ℕ)) (entropy : Result (List ℕ)) (cfg : Option NoiseConfig)
    → Keeps (noise_client_upgrade decode entropy cfg)
unfolding noise_client_upgrade
noise_client_upgrade-Keeps decode entropy none c = refl
noise_client_upgrade-Keeps decode (err e) (some cfg) c = ground (arith, read_full-Keeps 32 c)
noise_client_upgrade-Keeps decode (ok eph) (some cfg) c =
    ground (
      arith,
      read_full-Keeps 32 c,
      write-Keeps (scalar_base_mult (clamp_key eph)) (read_full 32 c).1,
    )

module _ (decode : String → Option (List ℕ)) (entropy : Result (List ℕ)) where
  module _ (base64 sha1 : List ℕ → List ℕ) (random ahead : ℕ → ℕ) where
    -- When `applyServerTransport` fails on an open connection, the transport is `noise` and the
    -- connection is still open, or the transport is `ws` and the connection is closed.
    pub apply_server_transport-closes :
        (t : TransportConfig) (c c' : Conn) (e : Err)
        → c.closed ≡ false
        → apply_server_transport decode entropy base64 sha1 random ahead (some t) c ≡ (err e, c')
        → ((t.kind ≡ "noise") × (c'.closed ≡ false)) ⊎ ((t.kind ≡ "ws") × (c'.closed ≡ true))
    unfolding apply_server_transport as_noise or_close close
    apply_server_transport-closes t c c' e is_open h = ground (
      arith,
      eq_iff t.kind "noise",
      eq_iff t.kind "ws",
      noise_server_upgrade-Keeps decode entropy t.noise c,
    )

    -- The same of `applyClientTransport`, from which `dialWithTransport` passes on the error.
    pub apply_client_transport-closes :
        (key_bytes : List ℕ) (remote_addr : String) (t : TransportConfig) (c c' : Conn) (e : Err)
        → c.closed ≡ false
        → apply_client_transport decode entropy base64 sha1 random ahead key_bytes remote_addr
            (some t)
            c
          ≡ (err e, c')
        → ((t.kind ≡ "noise") × (c'.closed ≡ false)) ⊎ ((t.kind ≡ "ws") × (c'.closed ≡ true))
    unfolding apply_client_transport as_noise or_close close
    apply_client_transport-closes key_bytes remote_addr t c c' e is_open h = ground (
      arith,
      eq_iff t.kind "noise",
      eq_iff t.kind "ws",
      noise_client_upgrade-Keeps decode entropy t.noise c,
    )

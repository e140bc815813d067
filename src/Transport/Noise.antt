-- ===== src/Transport/Noise.antt =====
-- go-core/transport/noise.go: the key exchange and the framing of the `noise` transport.
-- The write mutex is left out: an operation of the model is one critical section.
pub mod Keys
pub mod Exchange
pub mod Keypair
pub mod Framing
use rathole_pro.Prelude.{
  ℕ, zero, suc, ◌+◌, ◌*◌, ◌/◌, ◌%◌, ◌^◌, ◌≡◌, String, Bool, false, not, ◌||◌, List, [], ◌∷◌, ◌++◌,
  Option, none, some, ltb, ◌==◌, if◌then◌else◌, length, get_or, set, take, bit_and, bit_or, bit_xor,
}
use rathole_pro.Prelude.Words.{u8}
use rathole_pro.Prelude.Exec.{
  Result, ok, err, errorf, Exec, pure, raise, fail_if, done, lift, ◌>>=◌, ◌>>◌,
}
use rathole_pro.Net.{close, Conn, read_full, write}
use rathole_pro.Transport.Xor.{xor_from}
use rathole_pro.Config.{NoiseConfig}

-- `NoiseConn`; a key is 32 bytes.
pub record NoiseConn : Type 0 where
  pub raw : Conn
  pub enc_key : List ℕ
  pub dec_key : List ℕ

unfoldable pub xor_crypt : List ℕ → List ℕ → List ℕ
xor_crypt bytes key = xor_from key (length key) 0 bytes

unfoldable pub clamp_key : List ℕ → List ℕ
clamp_key k =
    let k1 = set k 0 (bit_and (get_or k 0 0) 248) in
    let k2 = set k1 31 (bit_and (get_or k1 31 0) 127) in set k2 31 (bit_or (get_or k2 31 0) 64)

unfoldable pub scalar_base_mult : List ℕ → List ℕ
scalar_base_mult scalar = set scalar 0 (bit_xor (get_or scalar 0 0) 0x09)

unfoldable pub scalar_mult : List ℕ → List ℕ → List ℕ
scalar_mult [] point = []
scalar_mult (s ∷ scalar) [] = []
scalar_mult (s ∷ scalar) (p ∷ point) = bit_xor s p ∷ scalar_mult scalar point

-- `decode` is `base64.StdEncoding.DecodeString`, and `entropy` what `io.ReadFull(rand.Reader, ephPriv[:])` gives.
module _ (decode : String → Option (List ℕ)) (entropy : Result (List ℕ)) where
  abbrev pub has_private_key : NoiseConfig → Bool
  has_private_key cfg = elim (decode cfg.local_private_key) [
    | none ↦ false
    | some key ↦ length key == 32
  ]

  unfoldable pub noise_server_upgrade : Option NoiseConfig → Exec Conn NoiseConn
  noise_server_upgrade none = raise (errorf "noise config is nil")
  noise_server_upgrade (some cfg) = do
    fail_if (not (has_private_key cfg)) (errorf "invalid noise private key")
    eph ← lift entropy
    let eph_priv = clamp_key eph
    write (scalar_base_mult eph_priv)
    client_pub ← read_full 32
    let shared = scalar_mult eph_priv client_pub
    λ conn. (ok (record { raw = conn; enc_key = shared; dec_key = shared }), conn)

  unfoldable pub noise_client_upgrade : Option NoiseConfig → Exec Conn NoiseConn
  noise_client_upgrade none = raise (errorf "noise config is nil")
  noise_client_upgrade (some cfg) = do
    server_pub ← read_full 32
    eph ← lift entropy
    let eph_priv = clamp_key eph
    write (scalar_base_mult eph_priv)
    let shared = scalar_mult eph_priv server_pub
    λ conn. (ok (record { raw = conn; enc_key = shared; dec_key = shared }), conn)

abbrev on_raw : {A : Type 0} → Exec Conn A → Exec NoiseConn A
on_raw x nc = let r = x nc.raw in (r.0, record nc { raw = r.1 })

-- `Read(b)` with `len(b) = size`: the bytes copied into `b`.
unfoldable pub noise_read : ℕ → Exec NoiseConn (List ℕ)
noise_read size nc =
    (do
      header ← on_raw (read_full 2)
      let count = bit_or (get_or header 0 0 * 2 ^ 8) (get_or header 1 0)
      fail_if (ltb 65535 count) (errorf "noise frame too large")
      buf ← on_raw (read_full count)
      pure (take size (xor_crypt buf nc.dec_key)))
      nc

unfoldable pub noise_write : List ℕ → Exec NoiseConn ℕ
noise_write b nc =
    (do
      let encrypted = xor_crypt b nc.enc_key
      on_raw (write (u8 (length encrypted / 2 ^ 8) ∷ u8 (length encrypted) ∷ []))
      on_raw (write encrypted))
      nc

abbrev pub noise_close : Exec NoiseConn (Unit {0})
noise_close = on_raw close

-- ===== src/Transport/Noise/Keypair.antt =====
-- go-core/transport/noise.go: `GenNoiseKeypair`, line by line. `encode` is
-- `base64.StdEncoding.EncodeToString`, and `entropy` what `io.ReadFull(rand.Reader, priv[:])` gives.
use rathole_pro.Prelude.{
  ℕ, ◌≡◌, refl, String, true, List, [], ◌∷◌, ◌++◌, Option, some, length, take, drop, arith,
}
use rathole_pro.Prelude.Exec.{Err, Result, ok, err}
use rathole_pro.Config.{NoiseConfig}
use rathole_pro.Transport.Noise.{clamp_key, scalar_base_mult, has_private_key}
use rathole_pro.Transport.Noise.Keys.{length-clamp_key}

-- A line of the output: a text, a text around a key, or an error behind a text.
pub data Line : Type 0 where
  text : String → Line
  keyed : String → String → String → Line
  failed : String → Err → Line

abbrev rule : Line
rule = text "═══════════════════════════════════════════"

module _ (encode : List ℕ → String) where
  abbrev key_lines : String → String → List Line
  key_lines priv_b64 pub_b64 =
      rule
      ∷ text "  RatholePro — Noise Keypair Generator"
      ∷ rule
      ∷ text ""
      ∷ text "  Private Key (base64):"
      ∷ keyed "    " priv_b64 ""
      ∷ text ""
      ∷ text "  Public Key (base64):"
      ∷ keyed "    " pub_b64 ""
      ∷ text ""
      ∷ text "  Server config:"
      ∷ text "    [server.transport.noise]"
      ∷ keyed "    local_private_key = \"" priv_b64 "\""
      ∷ text ""
      ∷ text "  Client config:"
      ∷ text "    [client.transport.noise]"
      ∷ keyed "    remote_public_key = \"" pub_b64 "\""
      ∷ rule
      ∷ []

  unfoldable pub gen_noise_keypair : Result (List ℕ) → List Line
  gen_noise_keypair (err e) = failed "Error generating key: " e ∷ []
  gen_noise_keypair (ok seed) =
      let priv = clamp_key seed in key_lines (encode priv) (encode (scalar_base_mult priv))

  -- A line of the output that sets the server's private key, and the key that it sets.
  pub record SetsKey (out : List Line) (key : String) : Type 0 where
    pub front : List Line
    pub back : List Line
    pub among : out ≡ front ++ keyed "    local_private_key = \"" key "\"" ∷ back

  -- With 32 random bytes, and a Base64 that decodes the text of the key, the output has a line that
  -- sets the server's private key, and `NoiseServerUpgrade` takes that key as a valid one.
  pub gen_noise_keypair-has_private_key :
      (decode : String → Option (List ℕ)) (entropy : Result (List ℕ)) (seed : List ℕ)
      (cfg : NoiseConfig)
      → decode (encode (clamp_key seed)) ≡ some (clamp_key seed)
      → length seed ≡ 32
      → (key : String) × SetsKey (gen_noise_keypair (ok seed)) key
        × (has_private_key decode entropy (record cfg { local_private_key = key }) ≡ true)
  unfolding gen_noise_keypair
  gen_noise_keypair-has_private_key decode entropy seed cfg decodes size =
      let out = gen_noise_keypair (ok seed) in
      (
        encode (clamp_key seed),
        record { front = take 12 out; back = drop 13 out; among = refl },
        ground (arith, decodes, length-clamp_key seed, size),
      )

-- ===== src/Transport/Noise/Exchange.antt =====
-- The exchange of both sides together.
use rathole_pro.Prelude.{
  ℕ, ◌≤◌, ◌≡◌, refl, ap, ◌∙◌, String, false, true, List, ◌++◌, Option, some, length,
}
use rathole_pro.Prelude.Exec.{ok}
use rathole_pro.Net.{Conn}
use rathole_pro.Config.{NoiseConfig}
use rathole_pro.Transport.Noise.{
  NoiseConn, clamp_key, scalar_base_mult, scalar_mult, noise_server_upgrade, noise_client_upgrade,
  has_private_key,
}
use rathole_pro.Transport.Noise.Keys.{
  shared_agrees, shared_from_public, length-clamp_key, length-scalar_base_mult, server_upgrade_ok,
  client_upgrade_ok,
}

-- Two ends of one connection: each will read first what the other writes first.
pub record Ends (decode : String → Option (List ℕ)) (cfg : NoiseConfig) : Type 0 where
  pub server : Conn
  pub client : Conn
  pub server_random : List ℕ
  pub client_random : List ℕ
  pub server_rest : List ℕ
  pub client_rest : List ℕ
  pub keyed : has_private_key decode (ok server_random) cfg ≡ true
  pub server_fits : (length server_random ≡ 32) × (server.closed ≡ false) × (32 ≤ server.room)
  pub client_fits : (length client_random ≡ 32) × (client.closed ≡ false) × (32 ≤ client.room)
  pub server_reads : server.incoming ≡ scalar_base_mult (clamp_key client_random) ++ server_rest
  pub client_reads : client.incoming ≡ scalar_base_mult (clamp_key server_random) ++ client_rest

module _ (decode : String → Option (List ℕ)) (cfg : NoiseConfig) (e : Ends decode cfg) where
  open e use {server, client, server_random, client_random}

  abbrev server_public : List ℕ
  server_public = scalar_base_mult (clamp_key server_random)

  abbrev client_public : List ℕ
  client_public = scalar_base_mult (clamp_key client_random)

  -- What both upgrades end with.
  pub record Agreed : Type 0 where
    pub at_server : NoiseConn
    pub at_client : NoiseConn
    pub server_returns :
        (noise_server_upgrade decode (ok server_random) (some cfg) server).0 ≡ ok at_server
    pub client_returns :
        (noise_client_upgrade decode (ok client_random) (some cfg) client).0 ≡ ok at_client
    pub server_sent : at_server.raw.outgoing ≡ server.outgoing ++ server_public
    pub client_sent : at_client.raw.outgoing ≡ client.outgoing ++ client_public
    pub to_client : at_server.enc_key ≡ at_client.dec_key
    pub to_server : at_client.enc_key ≡ at_server.dec_key
    pub overheard : at_server.enc_key ≡ scalar_base_mult (scalar_mult server_public client_public)

  length_public : (k : List ℕ) → length k ≡ 32 → length (scalar_base_mult (clamp_key k)) ≡ 32
  length_public k h = length-scalar_base_mult (clamp_key k) ∙ length-clamp_key k ∙ h

  -- Two open connections with room for the keys, each of which receives first what the other end
  -- writes first, and a local key that decodes to 32 bytes: both upgrades succeed with the same
  -- key for each direction, and that key is a function of the two messages alone.
  pub exchange_agrees : Agreed
  exchange_agrees =
      let s =
        server_upgrade_ok decode cfg server_random client_public e.server_rest server e.keyed
          e.server_fits.0 (length_public client_random e.client_fits.0) e.server_fits.1
          e.server_fits.2 e.server_reads in
      let c =
        client_upgrade_ok decode cfg client_random server_public e.client_rest client
          e.client_fits.0 (length_public server_random e.server_fits.0) e.client_fits.1
          e.client_fits.2 e.client_reads in
      record {
        at_server = _;
        at_client = _;
        server_returns = ap (λ r. r.0) s;
        client_returns = ap (λ r. r.0) c;
        server_sent = refl;
        client_sent = refl;
        to_client = shared_agrees (clamp_key server_random) (clamp_key client_random);
        to_server = shared_agrees (clamp_key client_random) (clamp_key server_random);
        overheard = shared_from_public (clamp_key server_random) (clamp_key client_random);
      }

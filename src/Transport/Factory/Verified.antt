-- ===== src/Transport/Factory/Verified.antt =====
-- go-core/transport/transport.go: whom a TLS client trusts.
use rathole_pro.Prelude.{
  ℕ, ◌≡◌, ◌≢◌, refl, arith, String, true, false, List, Option, none, some, str_eq, eq_iff,
  Bool-cases, Option-cases, ◌⊎◌, inl, inr,
}
use rathole_pro.Prelude.Int.{ℤ}
use rathole_pro.Prelude.Exec.{Result, Result-cases, ok}
use rathole_pro.Net.{Conn}
use rathole_pro.Config.{TlsConfig}
use rathole_pro.Transport.Factory.{version_tls12, TlsClient, tls_client, dial_tls}

module _ {Pool : Type 0} (read_file : String → Result (List ℕ))
    (certs_from_pem : List ℕ → Option Pool)
    (tls_dial : String → ℤ → TlsClient Pool → Result Conn) where
  -- A connection that `DialTLS` returns is one that `crypto/tls` made with the configuration's
  -- host name and no version below TLS 1.2, in one of two ways: a root is configured, its file was read and parsed, and the
  -- certificates of that file are the only roots, with verification on; or no root is configured
  -- and verification is off. So a configured root is never skipped, whatever goes wrong with it.
  pub dial_tls_trust :
      (addr : String) (cfg : TlsConfig) (timeout : ℤ) (conn : Conn)
      → dial_tls read_file certs_from_pem tls_dial addr (some cfg) timeout ≡ ok conn
      → (c : TlsClient Pool) × (tls_dial addr timeout c ≡ ok conn)
        × (c.server_name ≡ cfg.hostname)
        × (c.min_version ≡ version_tls12)
        × (((cfg.trusted_root ≡ "") × (c.insecure_skip_verify ≡ true) × (c.root_cas ≡ none))
            ⊎ ((cfg.trusted_root ≢ "")
                × (c.insecure_skip_verify ≡ false)
                × ((ca : List ℕ) × (pool : Pool) × (read_file cfg.trusted_root ≡ ok ca)
                    × (certs_from_pem ca ≡ some pool)
                    × (c.root_cas ≡ some pool))))
  unfolding dial_tls tls_client
  dial_tls_trust addr cfg timeout conn h = elim (Bool-cases (str_eq cfg.trusted_root "")) [
    | inl empty ↦ (
      record {
        min_version = version_tls12;
        server_name = cfg.hostname;
        root_cas = none;
        insecure_skip_verify = true;
      },
      ground (arith),
      refl,
      refl,
      inl ((eq_iff cfg.trusted_root "").0 empty, refl, refl),
    )
    | inr given ↦ elim (Result-cases (read_file cfg.trusted_root)) [
      | inr (e, failed) ↦ ground (arith)
      | inl (ca, got) ↦ elim (Option-cases (certs_from_pem ca)) [
        | inl bad ↦ ground (arith)
        | inr (pool, parsed) ↦ (
          record {
            min_version = version_tls12;
            server_name = cfg.hostname;
            root_cas = some pool;
            insecure_skip_verify = false;
          },
          ground (arith),
          refl,
          refl,
          inr (ground (arith, eq_iff cfg.trusted_root ""), refl, (ca, pool, got, parsed, refl)),
        )
      ]
    ]
  ]

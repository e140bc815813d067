-- ===== src/Transport/AutoCert/Halfway.antt =====
-- go-core/transport/autocert.go: `generateSelfSigned` writes the certificate before the key.
use rathole_pro.Prelude.{ℕ, ◌≡◌, arith, true, false, List, [], Option, some, str_eq, inl, inr}
use text.Mathlib.TextEquality.{eq_iff}
use rathole_pro.Prelude.Dict.{lookup, insert, lookup-insert}
use rathole_pro.Prelude.Exec.{Err, wrapf, Result-cases, ok, err}
use rathole_pro.Transport.AutoCert.{
  Files, AutoCertConfig, CertEnv, with_defaults, template, open_file, encode_pem,
  generate_self_signed, is_cert_valid, make_cert, ensure_cert, cert_path_of, key_path_of,
}
use rathole_pro.Transport.AutoCert.Reuse.{both, ensure_cert_uses}

module _ (env : CertEnv) where
  -- The certificate is there for a key that was made, and no file but the certificate's has changed.
  abbrev pub IsHalfway : AutoCertConfig → Files → Files → Type 0
  IsHalfway c files files' =
      (private serial : ℕ) × (der cert : List ℕ) × (env.generate_key ≡ ok private)
      × (env.create_certificate (template env serial c.hosts c.valid_days) private ≡ ok der)
      × (env.encode (cert_path_of env c) "CERTIFICATE" der ≡ ok cert)
      × (files' ≡ insert (cert_path_of env c) cert (insert (cert_path_of env c) [] files))

  write_key_inv :
      (c : AutoCertConfig) (files files' : Files) (x : Err)
      → make_cert env c files ≡ (err (wrapf "write key" x), files')
      → IsHalfway c files files'
  unfolding make_cert generate_self_signed open_file encode_pem
  write_key_inv c files files' x h = elim (Result-cases env.generate_key) [
    | inr (y, e) ↦
        ground (arith, eq_iff "create cert dir" "write key", eq_iff "generate key" "write key")
    | inl (private, e) ↦ elim (Result-cases env.serial) [
      | inr (y, e2) ↦
          ground (arith, eq_iff "create cert dir" "write key", eq_iff "generate serial" "write key")
      | inl (serial, e2) ↦
          elim (Result-cases
            (env.create_certificate (template env serial c.hosts c.valid_days) private)) [
              | inr (y, e3) ↦ ground (
                arith,
                eq_iff "create cert dir" "write key",
                eq_iff "create certificate" "write key",
              )
              | inl (der, e3) ↦
                  elim (Result-cases (env.encode (cert_path_of env c) "CERTIFICATE" der)) [
                    | inr (y, e4) ↦ ground (
                      arith,
                      eq_iff "create cert dir" "write key",
                      eq_iff "write cert" "write key",
                      eq_iff "encode cert PEM" "write key",
                    )
                    | inl (cert, e4) ↦ elim (Result-cases (env.marshal_key private)) [
                      | inr (y, e5) ↦ ground (
                        arith,
                        eq_iff "create cert dir" "write key",
                        eq_iff "write cert" "write key",
                        eq_iff "marshal key" "write key",
                      )
                      | inl (bytes, e5) ↦
                          elim (Result-cases
                            (env.encode (key_path_of env c) "EC PRIVATE KEY" bytes)) [
                              | inr (y, e6) ↦ (
                                private,
                                serial,
                                der,
                                cert,
                                e,
                                e3,
                                e4,
                                ground (
                                  arith,
                                  eq_iff "create cert dir" "write key",
                                  eq_iff "write cert" "write key",
                                  eq_iff "encode key PEM" "write key",
                                ),
                              )
                              | inl (key, e6) ↦ (
                                private,
                                serial,
                                der,
                                cert,
                                e,
                                e3,
                                e4,
                                ground (
                                  arith,
                                  eq_iff "create cert dir" "write key",
                                  eq_iff "write cert" "write key",
                                  eq_iff "encode key PEM" "write key",
                                ),
                              )
                            ]
                    ]
                  ]
            ]
    ]
  ]

  key_kept :
      (c : AutoCertConfig) (files : Files) (cert old : List ℕ)
      → str_eq (cert_path_of env c) (key_path_of env c) ≡ false
      → lookup (key_path_of env c) files ≡ some old
      → lookup
          (key_path_of env c)
          (insert (cert_path_of env c) cert (insert (cert_path_of env c) [] files))
        ≡ some old
  key_kept c files cert old ne there = ground (
    arith,
    lookup-insert (cert_path_of env c) (key_path_of env c) cert
        (insert (cert_path_of env c) [] files),
    lookup-insert (cert_path_of env c) (key_path_of env c) [] files,
  )

  both_there :
      (c : AutoCertConfig) (files : Files) (cert old : List ℕ)
      → str_eq (cert_path_of env c) (key_path_of env c) ≡ false
      → lookup (key_path_of env c) files ≡ some old
      → both env c (insert (cert_path_of env c) cert (insert (cert_path_of env c) [] files)) ≡ true
  both_there c files cert old ne there = ground (
    arith,
    key_kept c files cert old ne there,
    lookup-insert (cert_path_of env c) (cert_path_of env c) cert
        (insert (cert_path_of env c) [] files),
    eq_iff (cert_path_of env c) (cert_path_of env c),
  )

  fails_making :
      (cfg : Option AutoCertConfig) (files files' : Files) (x : Err)
      → ensure_cert env cfg files ≡ (err x, files')
      → make_cert env (with_defaults env cfg) files ≡ (err x, files')
  unfolding ensure_cert
  fails_making cfg files files' x h = ground (arith)

-- If `EnsureCert` without `ForceRegen` fails because the key file cannot be opened, and a key file
-- was there before, at another path than the certificate: the new certificate is on disk by then,
-- made for the key generated in the failed call, and the key file holds what it held before; a
-- later call with the same configuration, while nothing but the time has changed and the new
-- certificate has more than 30 days left, succeeds, says that nothing is new, and leaves both
-- files as they are.
pub ensure_cert-IsHalfway :
    (env : CertEnv) (cfg : Option AutoCertConfig) (files files' : Files) (old : List ℕ) (x : Err)
    (t : ℕ)
    → (with_defaults env cfg).force_regen ≡ false
    → str_eq (cert_path_of env (with_defaults env cfg)) (key_path_of env (with_defaults env cfg))
      ≡ false
    → lookup (key_path_of env (with_defaults env cfg)) files ≡ some old
    → ensure_cert env cfg files ≡ (err (wrapf "write key" x), files')
    → is_cert_valid (record env { now = t }) (cert_path_of env (with_defaults env cfg)) files'
      ≡ true
    → (ensure_cert (record env { now = t }) cfg files' ≡ (
      ok (record {
        cert_path = cert_path_of env (with_defaults env cfg);
        key_path = key_path_of env (with_defaults env cfg);
        is_new = false;
      }),
      files',
    ))
      × (lookup (key_path_of env (with_defaults env cfg)) files' ≡ some old)
      × IsHalfway env (with_defaults env cfg) files files'
unfolding with_defaults
ensure_cert-IsHalfway env cfg files files' old x t keep ne there h valid =
    let c = with_defaults env cfg in
    let half =
      write_key_inv env c files files' x
        (fails_making env cfg files files' (wrapf "write key" x) h) in
    let (private, serial, der, cert, e, e2, e3, e4) = half in
    let kept : lookup (key_path_of env c) files' ≡ some old =
      rw e4 (key_kept env c files cert old ne there) in
    let there' : both env c files' ≡ true = rw e4 (both_there env c files cert old ne there) in
    (ensure_cert_uses (record env { now = t }) cfg files' keep there' valid, kept, half)

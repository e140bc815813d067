-- ===== src/Transport/AutoCert/Reuse.antt =====
-- go-core/transport/autocert.go: what a call of `EnsureCert` leaves for the next one.
use rathole_pro.Prelude.{
  ℕ, ◌+◌, ◌*◌, ◌≡◌, arith, String, Bool, true, false, ◌&&◌, List, [], Option, some, str_eq,
  Bool-cases, inl, inr, sym, ap, ◌<◌,
}
use rathole_pro.Prelude.Int.{ℤ, pos, ◌+ℤ◌, int64_of, ltb_ℤ}
use rathole_pro.Prelude.Dict.{lookup, insert, lookup-insert}
use rathole_pro.Prelude.Exec.{Result-cases, ok}
use text.Mathlib.TextEquality.{eq_iff}
use rathole_pro.Config.{is_some}
use rathole_pro.Transport.AutoCert.{
  Files, AutoCertConfig, AutoCertResult, CertEnv, Template, day, default_cert_valid_days,
  with_defaults, template, open_file, encode_pem, generate_self_signed, is_cert_valid, has_usable,
  make_cert, ensure_cert, cert_path_of, key_path_of,
}

module _ (env : CertEnv) where
  -- Both files, as `generateSelfSigned` writes them.
  abbrev pub written : String → String → List ℕ → List ℕ → Files → Files
  written cert_path key_path cert key files =
      insert key_path key (insert key_path [] (insert cert_path cert (insert cert_path [] files)))

  -- What a `generateSelfSigned` that went well has made and written.
  abbrev pub Made : AutoCertConfig → Files → Files → Type 0
  Made c files files' =
      (private serial : ℕ) × (der cert key : List ℕ) × (env.create_certificate
          (template env serial c.hosts c.valid_days) private
        ≡ ok der)
      × (env.encode (cert_path_of env c) "CERTIFICATE" der ≡ ok cert)
      × (files' ≡ written (cert_path_of env c) (key_path_of env c) cert key files)

  make_cert_inv :
      (c : AutoCertConfig) (files files' : Files) (r : AutoCertResult)
      → make_cert env c files ≡ (ok r, files')
      → Made c files files'
        × (r ≡ record {
          cert_path = cert_path_of env c;
          key_path = key_path_of env c;
          is_new = true;
        })
  unfolding make_cert generate_self_signed open_file encode_pem
  make_cert_inv c files files' r h = elim (Result-cases env.generate_key) [
    | inr (x, e) ↦ ground (arith)
    | inl (private, e) ↦ elim (Result-cases env.serial) [
      | inr (x, e2) ↦ ground (arith)
      | inl (serial, e2) ↦
          elim (Result-cases
            (env.create_certificate (template env serial c.hosts c.valid_days) private)) [
              | inr (x, e3) ↦ ground (arith)
              | inl (der, e3) ↦
                  elim (Result-cases (env.encode (cert_path_of env c) "CERTIFICATE" der)) [
                    | inr (x, e4) ↦ ground (arith)
                    | inl (cert, e4) ↦ elim (Result-cases (env.marshal_key private)) [
                      | inr (x, e5) ↦ ground (arith)
                      | inl (bytes, e5) ↦
                          elim (Result-cases
                            (env.encode (key_path_of env c) "EC PRIVATE KEY" bytes)) [
                              | inr (x, e6) ↦ ground (arith)
                              | inl (key, e6) ↦ (
                                (private, serial, der, cert, key, e3, e4, ground (arith)),
                                ground (arith),
                              )
                            ]
                    ]
                  ]
            ]
    ]
  ]

  lookup-written :
      (cert_path key_path : String) (cert key : List ℕ) (files : Files)
      → str_eq key_path cert_path ≡ false
      → lookup cert_path (written cert_path key_path cert key files) ≡ some cert
  lookup-written cert_path key_path cert key files ne = ground (
    arith,
    lookup-insert key_path cert_path key
        (insert key_path [] (insert cert_path cert (insert cert_path [] files))),
    lookup-insert key_path cert_path [] (insert cert_path cert (insert cert_path [] files)),
    lookup-insert cert_path cert_path cert (insert cert_path [] files),
    ne,
    eq_iff cert_path cert_path,
  )

  has_written :
      (cert_path key_path : String) (cert key : List ℕ) (files : Files)
      → (is_some (lookup cert_path (written cert_path key_path cert key files))
          && is_some (lookup key_path (written cert_path key_path cert key files)))
        ≡ true
  has_written cert_path key_path cert key files = ground (
    arith,
    lookup-insert key_path cert_path key
        (insert key_path [] (insert cert_path cert (insert cert_path [] files))),
    lookup-insert key_path cert_path [] (insert cert_path cert (insert cert_path [] files)),
    lookup-insert cert_path cert_path cert (insert cert_path [] files),
    lookup-insert key_path key_path key
        (insert key_path [] (insert cert_path cert (insert cert_path [] files))),
    eq_iff cert_path cert_path,
    eq_iff key_path key_path,
  )

  abbrev pub both : AutoCertConfig → Files → Bool
  both c files =
      is_some (lookup (cert_path_of env c) files) && is_some (lookup (key_path_of env c) files)

  ensure_cert_leaves :
      (cfg : Option AutoCertConfig) (files files' : Files) (r : AutoCertResult)
      → ensure_cert env cfg files ≡ (ok r, files')
      → (both (with_defaults env cfg) files' ≡ true)
        × (r.cert_path ≡ cert_path_of env (with_defaults env cfg))
        × (r.key_path ≡ key_path_of env (with_defaults env cfg))
  unfolding ensure_cert has_usable
  ensure_cert_leaves cfg files files' r h =
      let c = with_defaults env cfg in
      elim (Bool-cases (has_usable env c (cert_path_of env c) (key_path_of env c) files)) [
        | inl used ↦ ground (arith)
        | inr made ↦
            let ((private, serial, der, cert, key, e3, e4, e5), e6) =
              make_cert_inv c files files' r (ground (arith)) in
            (
              rw e5 (has_written (cert_path_of env c) (key_path_of env c) cert key files),
              ground (arith),
              ground (arith),
            )
      ]

  pub ensure_cert_uses :
      (cfg : Option AutoCertConfig) (files : Files)
      → (with_defaults env cfg).force_regen ≡ false
      → both (with_defaults env cfg) files ≡ true
      → is_cert_valid env (cert_path_of env (with_defaults env cfg)) files ≡ true
      → ensure_cert env cfg files ≡ (
        ok (record {
          cert_path = cert_path_of env (with_defaults env cfg);
          key_path = key_path_of env (with_defaults env cfg);
          is_new = false;
        }),
        files,
      )
  unfolding ensure_cert has_usable
  ensure_cert_uses cfg files keep there valid = simp (keep, there, valid)

-- After a call of `EnsureCert` that went well, as long as nothing but the time has changed and the
-- certificate that it returned has more than 30 days left, a later call with the same
-- configuration and without `ForceRegen` returns the same paths, says that nothing is new, and
-- leaves the files as they are.
pub ensure_cert_again :
    (env : CertEnv) (cfg : Option AutoCertConfig) (files files' : Files) (r : AutoCertResult)
    (t : ℕ)
    → (with_defaults env cfg).force_regen ≡ false
    → ensure_cert env cfg files ≡ (ok r, files')
    → is_cert_valid (record env { now = t }) r.cert_path files' ≡ true
    → ensure_cert (record env { now = t }) cfg files' ≡ (ok (record r { is_new = false }), files')
unfolding with_defaults
ensure_cert_again env cfg files files' r t keep h valid =
    let (there, cert, key) = ensure_cert_leaves env cfg files files' r h in
    rw cert (
      rw key
        (ensure_cert_uses (record env { now = t }) cfg files' keep there (rw (sym cert) valid)))

valid_at :
    (env : CertEnv) (path : String) (files : Files) (t : ℕ) (text : List ℕ) (not_after : ℤ)
    → lookup path files ≡ some text
    → env.expiry text ≡ some not_after
    → ltb_ℤ (pos t +ℤ pos (30 * day)) not_after ≡ true
    → is_cert_valid (record env { now = t }) path files ≡ true
unfolding is_cert_valid
valid_at env path files t text not_after held reads early = ground (arith)

new_is_made :
    (env : CertEnv) (cfg : Option AutoCertConfig) (files files' : Files) (r : AutoCertResult)
    → ensure_cert env cfg files ≡ (ok r, files')
    → r.is_new ≡ true
    → make_cert env (with_defaults env cfg) files ≡ (ok r, files')
unfolding ensure_cert
new_is_made env cfg files files' r h new = ground (arith)

pub made_cert_valid :
    (env : CertEnv) (cfg : Option AutoCertConfig) (files files' : Files) (r : AutoCertResult)
    (t : ℕ)
    → ((path : String) (tmpl : Template) (key : ℕ) (der text : List ℕ)
        → env.create_certificate tmpl key ≡ ok der
        → env.encode path "CERTIFICATE" der ≡ ok text
        → env.expiry text ≡ some tmpl.not_after)
    → (with_defaults env cfg).valid_days ≡ default_cert_valid_days
    → str_eq (key_path_of env (with_defaults env cfg)) (cert_path_of env (with_defaults env cfg))
      ≡ false
    → ensure_cert env cfg files ≡ (ok r, files')
    → r.is_new ≡ true
    → t + 30 * day < env.now + 365 * 3 * day
    → is_cert_valid (record env { now = t }) r.cert_path files' ≡ true
unfolding template int64_of ◌+ℤ◌
made_cert_valid env cfg files files' r t reads days ne h new early =
    let c = with_defaults env cfg in
    let ((private, serial, der, cert, key, e3, e4, e5), e6) =
      make_cert_inv env c files files' r (new_is_made env cfg files files' r h new) in
    let not_after =
      reads (cert_path_of env c) (template env serial c.hosts c.valid_days) private der cert e3
        e4 in
    let held = lookup-written env (cert_path_of env c) (key_path_of env c) cert key files ne in
    valid_at env r.cert_path files' t cert (pos env.now +ℤ int64_of c.valid_days day)
      (rw (ap (λ (x : AutoCertResult). x.cert_path) e6) (rw e5 held)) not_after
      (rw days (ground arith))

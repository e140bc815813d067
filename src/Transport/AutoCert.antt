-- ===== src/Transport/AutoCert.antt =====
-- go-core/transport/autocert.go: the certificate of the `tls` transport, made when there is none.
-- The files are a table by path; a file in it can be read. What `crypto`, `encoding/pem`, `net`
-- and `path/filepath` give are the fields of `CertEnv`. Times are in nanoseconds.
pub mod Reuse
pub mod Halfway
use rathole_pro.Prelude.{
  ℕ, ◌*◌, ◌^◌, ◌≡◌, String, Bool, true, false, not, ◌&&◌, ◌||◌, List, [], ◌∷◌, ◌++◌, Option, none,
  some, str_eq, if◌then◌else◌,
}
use rathole_pro.Prelude.Int.{ℤ, pos, ◌+ℤ◌, ltb_ℤ, int64_of, not_positive}
use rathole_pro.Prelude.Dict.{Dict, lookup, insert}
use rathole_pro.Prelude.Exec.{
  Err, Result, ok, err, wrapf, Exec, lift, fail_if, pure, wrap, done, ◌>>=◌, ◌>>◌,
}
use rathole_pro.Config.{is_some}

abbrev pub Files : Type 0
Files = Dict (List ℕ)

pub record AutoCertConfig : Type 0 where
  pub cert_dir : String
  pub hosts : List String
  pub valid_days : ℤ
  pub force_regen : Bool

pub record AutoCertResult : Type 0 where
  pub cert_path : String
  pub key_path : String
  pub is_new : Bool

-- The fields of `x509.Certificate` that differ from one certificate to the next.
pub record Template : Type 0 where
  pub serial_number : ℕ
  pub not_before : ℤ
  pub not_after : ℤ
  pub ip_addresses : List (List ℕ)
  pub dns_names : List String

pub record Ip : Type 0 where
  pub text : String
  pub is_loopback : Bool

-- An address is an IP address, or of another type.
pub record Interface : Type 0 where
  pub is_up : Bool
  pub is_loopback : Bool
  pub addrs : Result (List (Option Ip))

pub record CertEnv : Type 0 where
  pub now : ℕ
  pub join : String → String → String
  pub mkdir_all : String → Result (Unit {0})
  pub generate_key : Result ℕ
  pub serial : Result ℕ
  pub create_certificate : Template → ℕ → Result (List ℕ)
  pub marshal_key : ℕ → Result (List ℕ)
  pub open_trunc : String → Result (Unit {0})
  pub encode : String → String → List ℕ → Result (List ℕ)
  pub expiry : List ℕ → Option ℤ
  pub parse_ip : String → Option (List ℕ)
  pub interfaces : Result (List Interface)

abbrev pub day : ℕ
day = 24 * 60 * 60 * 10 ^ 9

abbrev pub default_cert_valid_days : ℤ
default_cert_valid_days = pos (365 * 3)

-- The loop over the addresses of an interface.
unfoldable pub address_hosts : List (Option Ip) → List String
address_hosts [] = []
address_hosts (none ∷ addrs) = address_hosts addrs
address_hosts (some ip ∷ addrs) =
    let rest = address_hosts addrs in if ip.is_loopback then rest else ip.text ∷ rest

abbrev interface_addrs : Result (List (Option Ip)) → List String
interface_addrs (ok addrs) = address_hosts addrs
interface_addrs (err e) = []

-- The loop over the interfaces.
unfoldable pub interface_hosts : List Interface → List String
interface_hosts [] = []
interface_hosts (i ∷ ifaces) =
    let rest = interface_hosts ifaces in
    if not i.is_up || i.is_loopback then rest else interface_addrs i.addrs ++ rest

unfoldable pub detect_local_hosts : Result (List Interface) → List String
detect_local_hosts (err e) = "localhost" ∷ "127.0.0.1" ∷ "::1" ∷ []
detect_local_hosts (ok ifaces) = "localhost" ∷ "127.0.0.1" ∷ "::1" ∷ interface_hosts ifaces

abbrev is_empty_list : List String → Bool
is_empty_list [] = true
is_empty_list (_ ∷ _) = false

abbrev pub empty_config : AutoCertConfig
empty_config = record { cert_dir = ""; hosts = []; valid_days = pos 0; force_regen = false }

module _ (env : CertEnv) where
  -- The defaults of `EnsureCert`.
  unfoldable pub with_defaults : Option AutoCertConfig → AutoCertConfig
  with_defaults cfg =
      let c = elim cfg as (λ _. AutoCertConfig) [ none ↦ empty_config | some c ↦ c ] in
      record {
        cert_dir = if str_eq c.cert_dir "" then "certs" else c.cert_dir;
        hosts = if is_empty_list c.hosts then detect_local_hosts env.interfaces else c.hosts;
        valid_days = if not_positive c.valid_days then default_cert_valid_days else c.valid_days;
        force_regen = c.force_regen;
      }

  -- The loop over the hosts: IP addresses, and the other names.
  unfoldable pub ip_hosts : List String → List (List ℕ)
  ip_hosts [] = []
  ip_hosts (h ∷ hosts) = elim (env.parse_ip h) [
    | some ip ↦ ip ∷ ip_hosts hosts
    | none ↦ ip_hosts hosts
  ]

  unfoldable pub dns_hosts : List String → List String
  dns_hosts [] = []
  dns_hosts (h ∷ hosts) = elim (env.parse_ip h) [
    | some ip ↦ dns_hosts hosts
    | none ↦ h ∷ dns_hosts hosts
  ]

  unfoldable pub template : ℕ → List String → ℤ → Template
  template serial hosts valid_days = record {
    serial_number = serial;
    not_before = pos env.now;
    not_after = pos env.now +ℤ int64_of valid_days day;
    ip_addresses = ip_hosts hosts;
    dns_names = dns_hosts hosts;
  }

  -- `os.OpenFile`, which makes or empties the file.
  unfoldable pub open_file : String → Exec Files (Unit {0})
  open_file path files = elim (env.open_trunc path) [
    | err e ↦ (err e, files)
    | ok _ ↦ (ok tt, insert path [] files)
  ]

  -- `pem.Encode` into the opened file.
  unfoldable pub encode_pem : String → String → List ℕ → Exec Files (Unit {0})
  encode_pem path kind bytes files = elim (env.encode path kind bytes) [
    | err e ↦ (err e, files)
    | ok text ↦ (ok tt, insert path text files)
  ]

  -- `generateSelfSigned`
  unfoldable pub generate_self_signed : String → String → List String → ℤ → Exec Files (Unit {0})
  generate_self_signed cert_path key_path hosts valid_days = do
    private_key ← wrap "generate key" (lift env.generate_key)
    serial ← wrap "generate serial" (lift env.serial)
    cert_der ←
        wrap "create certificate"
          (lift (env.create_certificate (template serial hosts valid_days) private_key))
    wrap "write cert" (open_file cert_path)
    wrap "encode cert PEM" (encode_pem cert_path "CERTIFICATE" cert_der)
    key_bytes ← wrap "marshal key" (lift (env.marshal_key private_key))
    wrap "write key" (open_file key_path)
    wrap "encode key PEM" (encode_pem key_path "EC PRIVATE KEY" key_bytes)

  -- `isCertValid`
  unfoldable pub is_cert_valid : String → Files → Bool
  is_cert_valid path files = elim (lookup path files) [
    | none ↦ false
    | some text ↦ elim (env.expiry text) [
      | none ↦ false
      | some not_after ↦ ltb_ℤ (pos env.now +ℤ pos (30 * day)) not_after
    ]
  ]

  -- Whether `EnsureCert` uses what is there.
  unfoldable pub has_usable : AutoCertConfig → String → String → Files → Bool
  has_usable c cert_path key_path files =
      not c.force_regen
      && (is_some (lookup cert_path files) && is_some (lookup key_path files))
      && is_cert_valid cert_path files

  abbrev pub cert_path_of : AutoCertConfig → String
  cert_path_of c = env.join c.cert_dir "rathole-pro.crt"

  abbrev pub key_path_of : AutoCertConfig → String
  key_path_of c = env.join c.cert_dir "rathole-pro.key"

  -- What `EnsureCert` does when nothing there is used.
  unfoldable pub make_cert : AutoCertConfig → Exec Files AutoCertResult
  make_cert c = do
    wrap "create cert dir" (lift (env.mkdir_all c.cert_dir))
    generate_self_signed (cert_path_of c) (key_path_of c) c.hosts c.valid_days
    pure (record { cert_path = cert_path_of c; key_path = key_path_of c; is_new = true })

  -- `EnsureCert`
  unfoldable pub ensure_cert : Option AutoCertConfig → Exec Files AutoCertResult
  ensure_cert cfg files =
      let c = with_defaults cfg in
      let made = make_cert c files in
      if has_usable c (cert_path_of c) (key_path_of c) files
      then (
        ok (record { cert_path = cert_path_of c; key_path = key_path_of c; is_new = false }),
        files,
      )
      else made

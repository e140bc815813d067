-- ===== src/Runs/Certs.antt =====
-- Certificates made and used again, and what the transports do with a connection.
use rathole_pro.Prelude.{
  ℕ, ◌*◌, ◌≡◌, ◌≢◌, refl, String, Bool, true, false, List, [], ◌∷◌, Option, none, some, ◌⊎◌, str_eq,
  if◌then◌else◌,
}
use rathole_pro.Prelude.Int.{ℤ, pos, ◌+ℤ◌}
use rathole_pro.Prelude.Dict.{lookup, insert}
use rathole_pro.Prelude.Exec.{Result, ok, err, eof, wrapf, errorf}
use rathole_pro.Net.{Conn}
use rathole_pro.Config.{TransportConfig, TlsConfig}
use rathole_pro.Transport.AutoCert.{
  Files, AutoCertResult, CertEnv, day, with_defaults, open_file, encode_pem, generate_self_signed,
  is_cert_valid, has_usable, make_cert, ensure_cert,
}
use rathole_pro.Transport.AutoCert.Reuse.{ensure_cert_again}
use rathole_pro.Transport.AutoCert.Halfway.{IsHalfway, ensure_cert-IsHalfway}
use rathole_pro.Transport.Factory.{
  version_tls12, TlsClient, as_noise, apply_server_transport, tls_client, dial_tls,
}
use rathole_pro.Transport.Factory.Refused.{apply_server_transport-closes}
use rathole_pro.Transport.Factory.Verified.{dial_tls_trust}
use rathole_pro.Transport.Noise.{noise_server_upgrade}

abbrev env_with : (String → Result (Unit {0})) → CertEnv
env_with open_trunc = record {
  now = 0;
  join = λ dir name. name;
  mkdir_all = λ dir. ok tt;
  generate_key = ok 5;
  serial = ok 9;
  create_certificate = λ t key. ok (key ∷ []);
  marshal_key = λ key. ok (key ∷ []);
  open_trunc = open_trunc;
  encode = λ path kind bytes. ok bytes;
  expiry = λ text. some (pos (1095 * day));
  parse_ip = λ host. none;
  interfaces = ok [];
}

abbrev env : CertEnv
env = env_with (λ path. ok tt)

abbrev made : Files
made = ("rathole-pro.crt", 5 ∷ []) ∷ ("rathole-pro.key", 5 ∷ []) ∷ []

abbrev result : Bool → AutoCertResult
result is_new = record {
  cert_path = "rathole-pro.crt";
  key_path = "rathole-pro.key";
  is_new = is_new;
}

made_first : ensure_cert env none [] ≡ (ok (result true), made)
unfolding ensure_cert has_usable with_defaults make_cert generate_self_signed open_file encode_pem
    insert lookup is_cert_valid
made_first = refl

ensure_cert_again_example :
    ensure_cert (record env { now = 1000 * day }) none made ≡ (ok (result false), made)
unfolding with_defaults is_cert_valid lookup ◌+ℤ◌
ensure_cert_again_example =
    ensure_cert_again env none [] made (result true) (1000 * day) refl made_first refl

abbrev locked : CertEnv
locked = env_with (λ path. if str_eq path "rathole-pro.key" then err eof else ok tt)

abbrev old : Files
old = ("rathole-pro.key", 3 ∷ []) ∷ []

abbrev half : Files
half = ("rathole-pro.key", 3 ∷ []) ∷ ("rathole-pro.crt", 5 ∷ []) ∷ []

stops_halfway : ensure_cert locked none old ≡ (err (wrapf "write key" eof), half)
unfolding ensure_cert has_usable with_defaults make_cert generate_self_signed open_file encode_pem
    insert lookup is_cert_valid
stops_halfway = refl

ensure_cert-IsHalfway_example :
    (ensure_cert (record locked { now = day }) none half ≡ (ok (result false), half))
    × (lookup "rathole-pro.key" half ≡ some (3 ∷ []))
    × IsHalfway locked (with_defaults locked none) old half
unfolding with_defaults is_cert_valid lookup ◌+ℤ◌
ensure_cert-IsHalfway_example =
    ensure_cert-IsHalfway locked none old half (3 ∷ []) eof day refl refl refl stops_halfway refl

abbrev open_conn : Conn
open_conn = record { incoming = []; outgoing = []; room = 100; closed = false }

abbrev noise : TransportConfig
noise = record { kind = "noise"; tls = none; noise = none; web_socket = none }

apply_server_transport-closes_example :
    ((noise.kind ≡ "noise") × (open_conn.closed ≡ false))
    ⊎ ((noise.kind ≡ "ws") × (open_conn.closed ≡ true))
unfolding apply_server_transport as_noise noise_server_upgrade
apply_server_transport-closes_example =
    apply_server_transport-closes (λ text. none) (ok []) (λ s. s) (λ s. s) (λ i. 0) (λ i. 0) noise
      open_conn open_conn (errorf "noise config is nil") refl refl

abbrev tls : TlsConfig
tls = record {
  trusted_root = "ca.pem";
  pkcs12 = "";
  hostname = "a";
  auto_cert = false;
  cert_dir = "";
  hosts = [];
}

abbrev read_file : String → Result (List ℕ)
read_file path = ok (1 ∷ [])

abbrev certs_from_pem : List ℕ → Option ℕ
certs_from_pem text = some 1

abbrev tls_dial : String → ℤ → TlsClient ℕ → Result Conn
tls_dial addr timeout c = ok open_conn

dial_tls_trust_example :
    (c : TlsClient ℕ) × (tls_dial "a:1" (pos 9) c ≡ ok open_conn)
    × (c.server_name ≡ "a")
    × (c.min_version ≡ version_tls12)
    × (((tls.trusted_root ≡ "") × (c.insecure_skip_verify ≡ true) × (c.root_cas ≡ none))
        ⊎ ((tls.trusted_root ≢ "")
            × (c.insecure_skip_verify ≡ false)
            × ((ca : List ℕ) × (pool : ℕ) × (read_file "ca.pem" ≡ ok ca)
                × (certs_from_pem ca ≡ some pool)
                × (c.root_cas ≡ some pool))))
unfolding dial_tls tls_client
dial_tls_trust_example =
    dial_tls_trust read_file certs_from_pem tls_dial "a:1" tls (pos 9) open_conn refl

-- ===== src/Transport/Factory.antt =====
-- go-core/transport/transport.go, and what applies a transport to a connection in
-- go-core/server/server.go and go-core/client/client.go.
-- `net` and `crypto/tls` are the section's parameters: what listening, loading a key pair, reading
-- a CA file and dialling give.
pub mod Kinds
pub mod Refused
pub mod Verified
use rathole_pro.Prelude.{
  ℕ, ◌*◌, ◌^◌, ◌≡◌, String, Bool, true, false, not, ◌||◌, List, Option, none, some, str_eq,
  if◌then◌else◌,
}
use rathole_pro.Prelude.Int.{ℤ, pos}
use rathole_pro.Prelude.Exec.{
  Err, Result, ok, err, errorf, Exec, pure, raise, lift, fail_if, wrap, wrapf, ◌>>=◌, ◌>>◌,
}
use rathole_pro.Net.{Conn, close}
use rathole_pro.Config.{TlsConfig, TransportConfig, ClientConfig, get_transport_type}
use rathole_pro.Transport.AutoCert.{Files, AutoCertConfig, AutoCertResult, CertEnv, ensure_cert}
use rathole_pro.Transport.Noise.{NoiseConn, noise_server_upgrade, noise_client_upgrade}
use rathole_pro.Transport.Stream.{Stream, plain, noise_stream, ws_stream}
use rathole_pro.Transport.WebSocket.{ws_client_upgrade, ws_server_upgrade}
use rathole_pro.Transport.WsFrame.{WsConn}

-- `tls.VersionTLS12`
abbrev pub version_tls12 : ℕ
version_tls12 = 0x0303

-- The fields of `tls.Config` that `DialTLS` sets.
pub record TlsClient (Pool : Type 0) : Type 0 where
  pub min_version : ℕ
  pub server_name : String
  pub root_cas : Option Pool
  pub insecure_skip_verify : Bool

-- The `AutoCertConfig` that `ListenTLS` makes.
abbrev pub auto_cert_config : TlsConfig → AutoCertConfig
auto_cert_config cfg = record {
  cert_dir = cfg.cert_dir;
  hosts = cfg.hosts;
  valid_days = pos 0;
  force_regen = false;
}

module _ {L Pair : Type 0} (env : CertEnv) (listen : String → Result L)
    (tls_listen : String → Pair → Result L)
    (load_pair : String → String → Files → Result Pair) where
  -- `certFile` and `keyFile` in `ListenTLS`.
  unfoldable pub tls_files : TlsConfig → Exec Files (String × String)
  tls_files cfg files =
      let auto = wrap "auto-cert" (ensure_cert env (some (auto_cert_config cfg))) files in
      if cfg.auto_cert
      then (elim auto.0 [ ok r ↦ (ok (r.cert_path, r.key_path), auto.1) | err e ↦ (err e, auto.1) ])
      else (ok (cfg.trusted_root, cfg.pkcs12), files)

  unfoldable pub listen_tls : String → Option TlsConfig → Exec Files L
  listen_tls addr none = raise (errorf "TLS config is nil")
  listen_tls addr (some cfg) = do
    paths ← tls_files cfg
    fail_if (str_eq paths.0 "" || str_eq paths.1 "")
        (errorf "TLS requires cert and key paths (or set auto_cert = true)")
    cert ← wrap "load TLS cert/key" (λ files. (load_pair paths.0 paths.1 files, files))
    lift (tls_listen addr cert)

  abbrev listen_kind : String → String → Option TransportConfig → Exec Files L
  listen_kind kind addr t =
      if str_eq kind "tcp" || str_eq kind "ws"
      then lift (listen addr)
      else if str_eq kind "tls"
      then elim t [
        | none ↦ raise (errorf "TLS transport requires [transport.tls] config")
        | some t ↦ elim t.tls [
          | none ↦ raise (errorf "TLS transport requires [transport.tls] config")
          | some tls ↦ listen_tls addr (some tls)
        ]
      ]
      else if str_eq kind "noise"
      then lift (listen addr)
      else raise (errorf "unknown transport type")

  unfoldable pub server_listen : String → Option TransportConfig → Exec Files L
  server_listen addr t = listen_kind (get_transport_type t) addr t

module _ {Pool : Type 0} (read_file : String → Result (List ℕ))
    (certs_from_pem : List ℕ → Option Pool) where
  -- `tlsCfg` in `DialTLS`.
  unfoldable pub tls_client : TlsConfig → Result (TlsClient Pool)
  tls_client cfg =
      if not (str_eq cfg.trusted_root "")
      then elim (read_file cfg.trusted_root) [
        | err e ↦ err (wrapf "read CA cert" e)
        | ok ca_cert ↦ elim (certs_from_pem ca_cert) [
          | none ↦ err (errorf "failed to parse CA cert")
          | some pool ↦ ok (record {
            min_version = version_tls12;
            server_name = cfg.hostname;
            root_cas = some pool;
            insecure_skip_verify = false;
          })
        ]
      ]
      else ok (record {
        min_version = version_tls12;
        server_name = cfg.hostname;
        root_cas = none;
        insecure_skip_verify = true;
      })

  module _ (tls_dial : String → ℤ → TlsClient Pool → Result Conn) where
    unfoldable pub dial_tls : String → Option TlsConfig → ℤ → Result Conn
    dial_tls addr none timeout = err (errorf "TLS config is nil")
    dial_tls addr (some cfg) timeout = elim (tls_client cfg) [
      | err e ↦ err e
      | ok c ↦ tls_dial addr timeout c
    ]

    module _ (dial : String → ℤ → Result Conn) where
      abbrev dial_kind : String → String → Option TransportConfig → ℤ → Result Conn
      dial_kind kind addr t timeout =
          if str_eq kind "tcp" || str_eq kind "ws"
          then dial addr timeout
          else if str_eq kind "tls"
          then elim t [
            | none ↦ err (errorf "TLS transport requires [transport.tls] config")
            | some t ↦ elim t.tls [
              | none ↦ err (errorf "TLS transport requires [transport.tls] config")
              | some tls ↦ dial_tls addr (some tls) timeout
            ]
          ]
          else if str_eq kind "noise"
          then dial addr timeout
          else err (errorf "unknown transport type")

      unfoldable pub client_dial : String → Option TransportConfig → ℤ → Result Conn
      client_dial addr t timeout = dial_kind (get_transport_type t) addr t timeout

-- `if err != nil { conn.Close(); return nil, err }`
unfoldable pub or_close : Exec Conn WsConn → Exec Conn Stream
or_close x c =
    let r = x c in elim r.0 [ ok w ↦ (ok (ws_stream w), r.1) | err e ↦ (err e, (close r.1).1) ]

unfoldable pub as_noise : Exec Conn NoiseConn → Exec Conn Stream
as_noise x c = let r = x c in elim r.0 [ ok n ↦ (ok (noise_stream n), r.1) | err e ↦ (err e, r.1) ]

module _ (decode : String → Option (List ℕ)) (entropy : Result (List ℕ))
    (base64 sha1 : List ℕ → List ℕ) (random ahead : ℕ → ℕ) where
  -- `applyServerTransport`
  unfoldable pub apply_server_transport : Option TransportConfig → Exec Conn Stream
  apply_server_transport none conn = (ok (plain conn), conn)
  apply_server_transport (some t) conn =
      if str_eq t.kind "noise"
      then as_noise (noise_server_upgrade decode entropy t.noise) conn
      else if str_eq t.kind "ws"
      then or_close (ws_server_upgrade base64 sha1 random ahead) conn
      else (ok (plain conn), conn)

  -- `applyClientTransport`
  unfoldable pub apply_client_transport :
      List ℕ → String → Option TransportConfig → Exec Conn Stream
  apply_client_transport key_bytes remote_addr none conn = (ok (plain conn), conn)
  apply_client_transport key_bytes remote_addr (some t) conn =
      if str_eq t.kind "noise"
      then as_noise (noise_client_upgrade decode entropy t.noise) conn
      else if str_eq t.kind "ws"
      then or_close (ws_client_upgrade base64 sha1 random ahead key_bytes remote_addr t.web_socket)
          conn
      else (ok (plain conn), conn)

module _ {Pool : Type 0} (read_file : String → Result (List ℕ))
    (certs_from_pem : List ℕ → Option Pool) (tls_dial : String → ℤ → TlsClient Pool → Result Conn)
    (dial : String → ℤ → Result Conn) (decode : String → Option (List ℕ))
    (entropy : Result (List ℕ)) (base64 sha1 : List ℕ → List ℕ) (random ahead : ℕ → ℕ)
    (key_bytes : List ℕ) where
  -- `dialWithTransport`: the stream, and the connection under it as it is afterwards.
  unfoldable pub dial_with_transport : ClientConfig → Result Stream × Option Conn
  dial_with_transport cc =
      elim (client_dial read_file certs_from_pem tls_dial dial cc.remote_addr cc.transport
        (pos (10 * 10 ^ 9))) [
          | err e ↦ (err (wrapf "dial" e), none)
          | ok conn ↦
              let r =
                apply_client_transport decode entropy base64 sha1 random ahead key_bytes
                  cc.remote_addr cc.transport conn in
              (r.0, some r.1)
        ]

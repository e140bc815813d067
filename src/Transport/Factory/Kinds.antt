-- ===== src/Transport/Factory/Kinds.antt =====
-- go-core/server/server.go and go-core/client/client.go: both ends of a connection speak the same.
use rathole_pro.Prelude.{
  ℕ, ◌≡◌, arith, String, ◌||◌, List, Option, none, some, str_eq, eq_iff, Bool-cases, inl, inr,
  if◌then◌else◌,
}
use rathole_pro.Prelude.Exec.{Result, ok}
use rathole_pro.Net.{Conn}
use rathole_pro.Config.{TransportConfig}
use rathole_pro.Transport.Stream.{Stream, plain, noise_stream, ws_stream}
use rathole_pro.Transport.Factory.{
  or_close, as_noise, apply_server_transport, apply_client_transport,
}

-- What a stream does to the bytes that go through it, by the name of the transport that does so.
abbrev pub kind_of : Stream → String
kind_of (plain c) = "tcp"
kind_of (noise_stream n) = "noise"
kind_of (ws_stream w) = "ws"

abbrev pub carried : Option TransportConfig → String
carried none = "tcp"
carried (some t) = if str_eq t.kind "noise" || str_eq t.kind "ws" then t.kind else "tcp"

module _ (decode : String → Option (List ℕ)) (entropy : Result (List ℕ))
    (base64 sha1 : List ℕ → List ℕ) (random ahead : ℕ → ℕ) where
  server_kind :
      (t : Option TransportConfig) (c c' : Conn) (s : Stream)
      → apply_server_transport decode entropy base64 sha1 random ahead t c ≡ (ok s, c')
      → kind_of s ≡ carried t
  unfolding apply_server_transport or_close as_noise
  server_kind none c c' s h = ground (arith)
  server_kind (some t) c c' s h = elim (Bool-cases (str_eq t.kind "noise")) [
    | inl is_noise ↦ ground (arith, (eq_iff t.kind "noise").0 is_noise)
    | inr not_noise ↦ elim (Bool-cases (str_eq t.kind "ws")) [
      | inl is_ws ↦ ground (arith, (eq_iff t.kind "ws").0 is_ws)
      | inr not_ws ↦ ground (arith)
    ]
  ]

  client_kind :
      (t : Option TransportConfig) (key_bytes : List ℕ) (addr : String) (c c' : Conn) (s : Stream)
      → apply_client_transport decode entropy base64 sha1 random ahead key_bytes addr t c
        ≡ (ok s, c')
      → kind_of s ≡ carried t
  unfolding apply_client_transport or_close as_noise
  client_kind none key_bytes addr c c' s h = ground (arith)
  client_kind (some t) key_bytes addr c c' s h = elim (Bool-cases (str_eq t.kind "noise")) [
    | inl is_noise ↦ ground (arith, (eq_iff t.kind "noise").0 is_noise)
    | inr not_noise ↦ elim (Bool-cases (str_eq t.kind "ws")) [
      | inl is_ws ↦ ground (arith, (eq_iff t.kind "ws").0 is_ws)
      | inr not_ws ↦ ground (arith)
    ]
  ]

-- If the upgrades of a server and of a client with the same transport section both succeed, on
-- whatever connections, the two ends have streams of the same kind: of the section's type when
-- that is `noise` or `ws`, and the bare connection otherwise.
pub apply_server_transport-apply_client_transport :
    (decode decode' : String → Option (List ℕ)) (entropy entropy' : Result (List ℕ))
    (base64 sha1 : List ℕ → List ℕ) (random random' ahead ahead' : ℕ → ℕ)
    (t : Option TransportConfig) (key_bytes : List ℕ) (addr : String) (c c' d d' : Conn)
    (s r : Stream)
    → apply_server_transport decode entropy base64 sha1 random ahead t c ≡ (ok s, c')
    → apply_client_transport decode' entropy' base64 sha1 random' ahead' key_bytes addr t d
      ≡ (ok r, d')
    → (kind_of s ≡ carried t) × (kind_of r ≡ carried t)
apply_server_transport-apply_client_transport decode decode' entropy entropy' base64 sha1 random
      random' ahead ahead' t key_bytes addr c c' d d' s r h k =
    (
      server_kind decode entropy base64 sha1 random ahead t c c' s h,
      client_kind decode' entropy' base64 sha1 random' ahead' t key_bytes addr d d' r k,
    )

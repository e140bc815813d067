-- ===== src/Client/Session/Returns.antt =====
-- go-core/client/client.go: what a session leaves when it returns.
use mathlib.Core.Path.{subst}
use rathole_pro.Prelude.{
  ℕ, ◌*◌, ◌^◌, ◌⊎◌, ◌≡◌, ◌≢◌, refl, arith, String, true, false, List, [], ◌∷◌, Option, none, some,
  inl, inr,
}
use rathole_pro.Prelude.Int.{ℤ, pos}
use rathole_pro.Prelude.Exec.{Err, Result, Result-cases, ok, err, wrapf}
use rathole_pro.Net.{Conn}
use rathole_pro.Config.{ClientConfig, ServiceConfig, TransportConfig}
use rathole_pro.Protocol.{Json}
use rathole_pro.Transport.Stream.{Stream, stream_wire, stream_close, raw_of, plain}
use rathole_pro.Transport.Stream.Writes.{stream_close_lem}
use rathole_pro.Transport.Factory.{
  TlsClient, client_dial, apply_client_transport, dial_with_transport,
}
use rathole_pro.Transport.Factory.Refused.{apply_client_transport-closes}
use rathole_pro.Client.{authenticate}
use rathole_pro.Client.Session.{Ended, run_tcp_session, run_udp_session}

-- A session that ended before it had a stream.
abbrev pub ended_early : Err → Ended Stream
ended_early e = record { error = some e; conn = none; streams = [] }

-- What `dialWithTransport` leaves: nothing, a connection whose upgrade failed, or a stream.
pub data Dialled (t : Option TransportConfig) (d : Result Stream × Option Conn) : Type 0 where
  no_conn : (e : Err) → d ≡ (err e, none) → Dialled t d
  not_upgraded :
      (e : Err) (c : Conn) (s : TransportConfig)
      → d ≡ (err e, some c)
      → t ≡ some s
      → ((s.kind ≡ "noise") × (c.closed ≡ false)) ⊎ ((s.kind ≡ "ws") × (c.closed ≡ true))
      → Dialled t d
  upgraded_to : (stream : Stream) (c : Conn) → d ≡ (ok stream, some c) → Dialled t d

-- How a session of a TCP service ends, and always with an error: without a stream, or with its
-- connection closed; and yamux's streams are passed on only after `authenticate` succeeded.
pub data Returned (authenticated : Stream → Type 0) (t : Option TransportConfig)
    (d : Result Stream × Option Conn) (r : Ended Stream) : Type 0 where
  without_stream :
      (e : Err) → d.0 ≡ err e → Dialled t d → r ≡ ended_early e → Returned authenticated t d r
  released :
      (stream last : Stream) (e : Err)
      → d.0 ≡ ok stream
      → r.error ≡ some e
      → r.conn ≡ some last
      → (raw_of last).closed ≡ true
      → (r.streams ≡ []) ⊎ authenticated stream
      → Returned authenticated t d r

module _ {Pool : Type 0} (read_file : String → Result (List ℕ))
    (certs_from_pem : List ℕ → Option Pool) (tls_dial : String → ℤ → TlsClient Pool → Result Conn)
    (dial : String → ℤ → Result Conn) (decode : String → Option (List ℕ))
    (entropy : Result (List ℕ)) (base64 sha1 : List ℕ → List ℕ) (random ahead : ℕ → ℕ)
    (key_bytes : List ℕ) where
  abbrev pub dials : ClientConfig → Result Stream × Option Conn
  dials cc =
      dial_with_transport read_file certs_from_pem tls_dial dial decode entropy base64 sha1 random
        ahead key_bytes cc

  abbrev pub connects : ClientConfig → Result Conn
  connects cc =
      client_dial read_file certs_from_pem tls_dial dial cc.remote_addr cc.transport
        (pos (10 * 10 ^ 9))

  apply_client_transport-Dialled :
      (t : Option TransportConfig) (addr : String) (c : Conn)
      → c.closed ≡ false
      → let r = apply_client_transport decode entropy base64 sha1 random ahead key_bytes addr t c in
        Dialled t (r.0, some r.1)
  apply_client_transport-Dialled none addr c o =
      unfold apply_client_transport in upgraded_to (plain c) c refl
  apply_client_transport-Dialled (some s) addr c o =
      let r =
        apply_client_transport decode entropy base64 sha1 random ahead key_bytes addr (some s) c in
      elim (Result-cases r.0) [
        | inl (stream, up) ↦ upgraded_to stream r.1 (ground (arith))
        | inr (e, down) ↦ not_upgraded e r.1 s (ground (arith)) refl (
            apply_client_transport-closes decode entropy base64 sha1 random ahead key_bytes addr s c
              r.1 e o (ground (arith)))
      ]

  dials-Dialled :
      (cc : ClientConfig)
      → ((c : Conn) → connects cc ≡ ok c → c.closed ≡ false)
      → Dialled cc.transport (dials cc)
  unfolding dial_with_transport
  dials-Dialled cc opens = elim (Result-cases (connects cc)) [
    | inr (e, down) ↦ no_conn (wrapf "dial" e) (ground (arith))
    | inl (c, up) ↦
        subst (Dialled cc.transport) (ground (arith))
          (apply_client_transport-Dialled cc.transport cc.remote_addr c (opens c up))
  ]

  pub dials_lem :
      (cc : ClientConfig) (c : Conn)
      → connects cc ≡ ok c
      → (dials cc).0
        ≡ (apply_client_transport decode entropy base64 sha1 random ahead key_bytes cc.remote_addr
            cc.transport c).0
  unfolding dial_with_transport
  dials_lem cc c up = ground (arith)

  module _ (json : Json) (hash_token : String → String) (yamux_client : Stream → Result ℕ)
      (name : String) (svc : ServiceConfig) (cc : ClientConfig) where
    abbrev pub IsAuthenticated : Stream → Type 0
    IsAuthenticated stream = (authenticate json hash_token name svc cc stream).0 ≡ ok tt

    session_lem :
        (accepts : ℕ → List ℕ × Err) (d : Result Stream × Option Conn) (r : Result Stream)
        → Dialled cc.transport d
        → d.0 ≡ r
        → Returned IsAuthenticated cc.transport d
            (run_tcp_session json hash_token yamux_client accepts r name svc cc)
    unfolding run_tcp_session
    session_lem accepts d (err e) left_over down = without_stream e down left_over refl
    session_lem accepts d (ok stream) left_over up =
        let a = authenticate json hash_token name svc cc stream in
        let last = (stream_close a.1).1 in
        let shut = (stream_close_lem a.1).0 in
        elim (Result-cases a.0) [
          | inr (e, refused) ↦
              released stream last e up (ground (arith)) (ground (arith)) shut
                (inl (ground (arith)))
          | inl (u, accepted) ↦ elim (Result-cases (yamux_client a.1)) [
            | inr (e, bad) ↦
                released stream last (wrapf "yamux client" e) up (ground (arith)) (ground (arith))
                  shut (inl (ground (arith)))
            | inl (session, good) ↦
                released stream last (wrapf "yamux accept" (accepts session).1) up (ground (arith))
                  (ground (arith)) shut (inr accepted)
          ]
        ]

    -- If what the dialler gives is open, a session of a TCP service returns with an error, never
    -- without one: nothing was dialled; or the upgrade failed, and the connection is closed when
    -- the transport is `ws` and still open when it is `noise`; or there was a stream, whose
    -- connection is closed by then, and on which yamux's streams were passed on only if
    -- `authenticate` had succeeded on it.
    pub run_tcp_session-Returned :
        (accepts : ℕ → List ℕ × Err)
        → ((c : Conn) → connects cc ≡ ok c → c.closed ≡ false)
        → Returned IsAuthenticated cc.transport
            (dials cc)
            (run_tcp_session json hash_token yamux_client accepts (dials cc).0 name svc cc)
    run_tcp_session-Returned accepts opens =
        session_lem accepts (dials cc) (dials cc).0 (dials-Dialled cc opens) refl

    -- A session of a UDP service returns without an error only if `ClientUDP` did; a stream that
    -- was dialled has its connection closed by then; and one of yamux's streams was passed on only
    -- after `authenticate` had succeeded on it.
    pub run_udp_session_returns :
        (accept : ℕ → Result ℕ) (client_udp : ℕ → Option Err) (dialled : Result Stream)
        → let r =
            run_udp_session json hash_token yamux_client accept client_udp dialled name svc cc in
          (r.error ≡ none → (stream : ℕ) × (r.streams ≡ stream ∷ []) × (client_udp stream ≡ none))
          × ((last : Stream) → r.conn ≡ some last → (raw_of last).closed ≡ true)
          × (r.streams ≢ []
              → (stream : Stream) × (dialled ≡ ok stream)
                × ((authenticate json hash_token name svc cc stream).0 ≡ ok tt))
    unfolding run_udp_session
    run_udp_session_returns accept client_udp (err e) =
        (ground (arith), ground (arith), ground (arith))
    run_udp_session_returns accept client_udp (ok conn) =
        let a = authenticate json hash_token name svc cc conn in
        let shut = (stream_close_lem a.1).0 in
        elim (Result-cases a.0) [
          | inr (e, refused) ↦ (ground (arith), ground (arith), ground (arith))
          | inl (u, accepted) ↦ elim (Result-cases (yamux_client a.1)) [
            | inr (e, bad) ↦ (ground (arith), ground (arith), ground (arith))
            | inl (session, good) ↦ elim (Result-cases (accept session)) [
              | inr (e, ended) ↦ (ground (arith), ground (arith), ground (arith))
              | inl (stream, got) ↦ (
                λ h. (stream, ground (arith), ground (arith)),
                ground (arith),
                λ _. (conn, refl, accepted),
              )
            ]
          ]
        ]

-- A session on a stream that is authenticated and got its yamux session.
pub run_tcp_session_lem :
    (json : Json) (hash_token : String → String) (yamux_client : Stream → Result ℕ)
    (accepts : ℕ → List ℕ × Err) (name : String) (svc : ServiceConfig) (cc : ClientConfig)
    (stream : Stream) (session : ℕ)
    → (authenticate json hash_token name svc cc stream).0 ≡ ok tt
    → yamux_client (authenticate json hash_token name svc cc stream).1 ≡ ok session
    → let r = run_tcp_session json hash_token yamux_client accepts (ok stream) name svc cc in
      (r.streams ≡ (accepts session).0)
      × (r.error ≡ some (wrapf "yamux accept" (accepts session).1))
unfolding run_tcp_session
run_tcp_session_lem json hash_token yamux_client accepts name svc cc stream session auth up =
    (ground (arith), ground (arith))

-- ===== src/Client/Session/NoiseEnds.antt =====
-- Two ends of a connection that both upgrade it to the noise transport: go-core/transport/noise.go,
-- and what applies it in go-core/client/client.go and go-core/server/server.go.
use rathole_pro.Prelude.{
  ℕ, ◌+◌, ◌-◌, ◌≤◌, ◌<◌, ◌≡◌, ◌∙◌, refl, ap, sym, arith, String, true, false, List, ◌++◌, Option,
  some, length, eq_iff,
}
use rathole_pro.Prelude.Exec.{ok}
use rathole_pro.Net.{Conn}
use rathole_pro.Config.{NoiseConfig, TransportConfig}
use rathole_pro.Protocol.{header}
use rathole_pro.Transport.Noise.{clamp_key, scalar_base_mult, scalar_mult, has_private_key}
use rathole_pro.Transport.Noise.Framing.{noise_frame}
use rathole_pro.Transport.Noise.Keys.{
  shared_agrees, length-clamp_key, length-scalar_base_mult, server_upgrade_ok, client_upgrade_ok,
}
use rathole_pro.Transport.Stream.{Stream, noise_stream, stream_wire}
use rathole_pro.Transport.Stream.Writes.{noise_meets}
use rathole_pro.Transport.Stream.Messages.{Ends}
use rathole_pro.Transport.Factory.{apply_server_transport, apply_client_transport, as_noise}
use rathole_pro.Server.Run.{Accepted}

-- The bytes of a message behind the noise transport.
abbrev pub noise_message : List ℕ → List ℕ → List ℕ
noise_message key payload = noise_frame key (header payload) ++ noise_frame key payload

-- Two ends of one connection: each receives what the other sends, its public key and its message.
pub record NoiseEnds (decode : String → Option (List ℕ)) (ask answer : List ℕ) : Type 0 where
  pub server : Conn
  pub client : Conn
  pub server_random : List ℕ
  pub client_random : List ℕ
  pub server_config : NoiseConfig
  pub client_config : NoiseConfig
  pub server_rest : List ℕ
  pub client_rest : List ℕ
  pub keyed : has_private_key decode (ok server_random) server_config ≡ true
  pub server_draws : length server_random ≡ 32
  pub client_draws : length client_random ≡ 32
  pub server_open : server.closed ≡ false
  pub client_open : client.closed ≡ false

module _ {decode : String → Option (List ℕ)} {ask answer : List ℕ}
    (n : NoiseEnds decode ask answer) where
  abbrev pub server_public : List ℕ
  server_public = scalar_base_mult (clamp_key n.server_random)

  abbrev pub client_public : List ℕ
  client_public = scalar_base_mult (clamp_key n.client_random)

  abbrev pub shared : List ℕ
  shared = scalar_mult (clamp_key n.server_random) client_public

  -- What each end receives, and room for what it sends.
  pub record NoiseMeets : Type 0 where
    pub server_reads :
        n.server.incoming ≡ client_public ++ (noise_message shared ask ++ n.server_rest)
    pub client_reads :
        n.client.incoming ≡ server_public ++ (noise_message shared answer ++ n.client_rest)
    pub server_room : 32 + length (noise_message shared answer) ≤ n.server.room
    pub client_room : 32 + length (noise_message shared ask) ≤ n.client.room
    pub ask_fits : (0 < length ask) × (length ask ≤ 65535)
    pub answer_fits : (0 < length answer) × (length answer ≤ 65535)

  abbrev keyed_stream : Conn → List ℕ → List ℕ → List ℕ → Stream
  keyed_stream c key sent rest = noise_stream (record {
    raw = record c { incoming = rest; outgoing = c.outgoing ++ sent; room = c.room - length sent };
    enc_key = key;
    dec_key = key;
  })

  -- The streams of the two ends after the exchange.
  abbrev pub server_stream : Stream
  server_stream =
      keyed_stream n.server shared server_public (noise_message shared ask ++ n.server_rest)

  abbrev pub client_stream : Stream
  client_stream =
      keyed_stream n.client (scalar_mult (clamp_key n.client_random) server_public) client_public
        (noise_message shared answer ++ n.client_rest)

  pub length_public : (k : List ℕ) → length k ≡ 32 → length (scalar_base_mult (clamp_key k)) ≡ 32
  length_public k h = length-scalar_base_mult (clamp_key k) ∙ length-clamp_key k ∙ h

  same_key : scalar_mult (clamp_key n.client_random) server_public ≡ shared
  same_key = shared_agrees (clamp_key n.client_random) (clamp_key n.server_random)

  pub stream_ends :
      NoiseMeets → Ends client_stream server_stream ask answer n.server_rest n.client_rest
  stream_ends h = record {
    to_server = noise_meets same_key;
    to_client = noise_meets (sym same_key);
    client_open = n.client_open;
    server_open = n.server_open;
    client_room = omega (
      arith,
      h.client_room,
      length_public n.client_random n.client_draws,
      ap (λ (k : List ℕ). length (noise_message k ask)) same_key,
    );
    server_room = omega (arith, h.server_room, length_public n.server_random n.server_draws);
    server_reads = ap (λ (k : List ℕ). noise_message k ask ++ n.server_rest) (sym same_key);
    client_reads = refl;
    ask_fits = h.ask_fits;
    answer_fits = h.answer_fits;
  }

  abbrev pub accepted : (random ahead : ℕ → ℕ) → Accepted
  accepted random ahead = record {
    conn = n.server;
    entropy = ok n.server_random;
    random = random;
    ahead = ahead;
  }

  pub server_upgrades :
      (base64 sha1 : List ℕ → List ℕ) (random ahead : ℕ → ℕ) (t : TransportConfig)
      → NoiseMeets
      → t.kind ≡ "noise"
      → t.noise ≡ some n.server_config
      → (apply_server_transport decode
          (ok n.server_random)
          base64
          sha1
          random
          ahead
          (some t)
          n.server).0
        ≡ ok server_stream
  unfolding apply_server_transport as_noise
  server_upgrades base64 sha1 random ahead t h kind cfg = ground (
    arith,
    eq_iff t.kind "noise",
    server_upgrade_ok decode n.server_config n.server_random client_public
        (noise_message shared ask ++ n.server_rest) n.server n.keyed n.server_draws
        (length_public n.client_random n.client_draws) n.server_open (omega (arith, h.server_room))
        h.server_reads,
  )

  pub client_upgrades :
      (base64 sha1 : List ℕ → List ℕ) (random ahead : ℕ → ℕ) (key_bytes : List ℕ) (addr : String)
      (t : TransportConfig)
      → NoiseMeets
      → t.kind ≡ "noise"
      → t.noise ≡ some n.client_config
      → (apply_client_transport decode
          (ok n.client_random)
          base64
          sha1
          random
          ahead
          key_bytes
          addr
          (some t)
          n.client).0
        ≡ ok client_stream
  unfolding apply_client_transport as_noise
  client_upgrades base64 sha1 random ahead key_bytes addr t h kind cfg = ground (
    arith,
    eq_iff t.kind "noise",
    client_upgrade_ok decode n.client_config n.client_random server_public
        (noise_message shared answer ++ n.client_rest) n.client n.client_draws
        (length_public n.server_random n.server_draws) n.client_open (omega (arith, h.client_room))
        h.client_reads,
  )

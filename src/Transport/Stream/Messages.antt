-- ===== src/Transport/Stream/Messages.antt =====
-- The messages of go-core/protocol/protocol.go over the connections that the transports make.
use rathole_pro.Prelude.{
  ℕ, ◌≤◌, ◌<◌, ◌≡◌, refl, ◌∙◌, ap, false, List, [], ◌++◌, length, length-append, append_assoc,
  arith,
}
use mathlib.Core.Path.{subst}
use rathole_pro.Prelude.Exec.{ok}
use rathole_pro.Net.Wire.{Gives}
use rathole_pro.Protocol.{Json, Envelope, Encodes, header, write_message, read_message}
use rathole_pro.Protocol.Wires.{length-header, write_message-Sends, read_message-Gives}
use rathole_pro.Transport.WsFrame.{mask_key}
use rathole_pro.Transport.Stream.{Stream, plain, noise_stream, ws_stream, raw_of, stream_wire}
use rathole_pro.Transport.Stream.Writes.{
  write_bytes, sent, left, Meets, write_limit, write-Sends, read-Gives, Meets-sent, sent_open,
  sent_room, sent_outgoing, left_open, left_incoming, left_left, left_limit, limit_nine,
  sent_incoming, sent_limit, left_room, left_outgoing, Meets-receiver,
}

-- The bytes of a message on the connection below.
abbrev pub message_bytes : Stream → List ℕ → List ℕ
message_bytes s payload =
    write_bytes s (header payload) ++ write_bytes (sent s (header payload)) payload

abbrev pub message_sent : Stream → List ℕ → Stream
message_sent s payload = sent (sent s (header payload)) payload

pub message_sent_open :
    (s : Stream) (payload : List ℕ) → (raw_of (message_sent s payload)).closed ≡ (raw_of s).closed
message_sent_open s payload =
    sent_open (sent s (header payload)) payload ∙ sent_open s (header payload)

pub message_sent_outgoing :
    (s : Stream) (payload : List ℕ)
    → (raw_of (message_sent s payload)).outgoing ≡ (raw_of s).outgoing ++ message_bytes s payload
message_sent_outgoing s payload =
    sent_outgoing (sent s (header payload)) payload
    ∙ ap (λ (o : List ℕ). o ++ write_bytes (sent s (header payload)) payload)
        (sent_outgoing s (header payload))
    ∙ append_assoc (raw_of s).outgoing (write_bytes s (header payload))
        (write_bytes (sent s (header payload)) payload)

module _ (json : Json) (env : Envelope) (payload : List ℕ) (enc : Encodes json env payload) where
  pub write_message_over :
      (s : Stream)
      → (raw_of s).closed ≡ false
      → length (message_bytes s payload) ≤ (raw_of s).room
      → write_message json env s ≡ (ok tt, message_sent s payload)
  write_message_over s o room =
      let head = header payload in
      let total = length-append (write_bytes s head) (write_bytes (sent s head) payload) in
      write_message-Sends json env payload enc s (sent s head) (message_sent s payload)
        (write-Sends s head o (omega (arith, total)))
        (write-Sends (sent s head) payload (sent_open s head ∙ o)
          (omega (arith, total, sent_room s head)))

  pub read_message_over :
      {s r : Stream}
      → Meets s r
      → (rest : List ℕ) → 0 < length payload
      → length payload ≤ write_limit r
      → (raw_of r).closed ≡ false
      → (raw_of r).incoming ≡ message_bytes s payload ++ rest
      → read_message json r ≡ (ok env, left r rest)
  read_message_over {s = s} {r = r} meets rest pos small o e =
      let head = header payload in
      let behind = write_bytes (sent s head) payload ++ rest in
      read_message-Gives json env payload enc r (left r behind) (left r rest)
        (read-Gives meets head behind (omega (arith, length-header payload))
          (omega (arith, length-header payload, limit_nine r)) o
          (e ∙ append_assoc (write_bytes s head) (write_bytes (sent s head) payload) rest))
        (subst (λ t. Gives (left r behind) payload t) (left_left r behind rest)
          (read-Gives (Meets-sent meets head behind) payload rest pos
            (omega (arith, left_limit r behind)) (left_open r behind ∙ o) (left_incoming r behind)))

  -- A message that the codec reads back, of some bytes and no more than the transport takes in one
  -- write, between two ends of the same transport, whose noise keys agree and whose frames have
  -- all been read, on open connections with room for it and nothing sent before: what
  -- `WriteMessage` sends, `ReadMessage` at the other end gives back as the same message, and leaves
  -- what follows it.
  pub read_message-write_message_over :
      {s r : Stream}
      → Meets s r
      → (rest : List ℕ) → 0 < length payload
      → length payload ≤ write_limit r
      → (raw_of s).closed ≡ false
      → length (message_bytes s payload) ≤ (raw_of s).room
      → (raw_of s).outgoing ≡ []
      → (raw_of r).closed ≡ false
      → (raw_of r).incoming ≡ (raw_of (write_message json env s).1).outgoing ++ rest
      → ((write_message json env s).0 ≡ ok tt) × (read_message json r ≡ (ok env, left r rest))
  read_message-write_message_over {s = s} meets rest pos small o room fresh o' arrives =
      let w = write_message_over s o room in
      (
        ap (λ v. v.0) w,
        read_message_over meets rest pos small o' (
            arrives
            ∙ ap (λ v. (raw_of v.1).outgoing ++ rest) w
            ∙ ap (λ (out : List ℕ). out ++ rest) (message_sent_outgoing s payload)
            ∙ ap (λ (out : List ℕ). (out ++ message_bytes s payload) ++ rest) fresh),
      )

message_bytes-left :
    (s : Stream) (rest payload : List ℕ)
    → message_bytes (left s rest) payload ≡ message_bytes s payload
unfolding mask_key
message_bytes-left (plain c) rest payload = refl
message_bytes-left (noise_stream nc) rest payload = refl
message_bytes-left (ws_stream ws) rest payload = refl

-- Two ends on open connections with room for a message each way, each of which receives first what
-- the other end writes of its message; a message is at most what one read takes.
pub record Ends (client server : Stream) (ask answer server_rest client_rest : List ℕ)
    : Type 0 where
  pub to_server : Meets client server
  pub to_client : Meets server client
  pub client_open : (raw_of client).closed ≡ false
  pub server_open : (raw_of server).closed ≡ false
  pub client_room : length (message_bytes client ask) ≤ (raw_of client).room
  pub server_room : length (message_bytes server answer) ≤ (raw_of server).room
  pub server_reads : (raw_of server).incoming ≡ message_bytes client ask ++ server_rest
  pub client_reads : (raw_of client).incoming ≡ message_bytes server answer ++ client_rest
  pub ask_fits : (0 < length ask) × (length ask ≤ write_limit server)
  pub answer_fits : (0 < length answer) × (length answer ≤ write_limit client)

module _ (json : Json) {client server : Stream} {ask answer server_rest client_rest : List ℕ}
    (e : Ends client server ask answer server_rest client_rest) where
  -- A question and its answer, at both ends.
  pub asks :
      (env : Envelope)
      → Encodes json env ask
      → (write_message json env client ≡ (ok tt, message_sent client ask))
        × (read_message json server ≡ (ok env, left server server_rest))
  asks env enc = (
    write_message_over json env ask enc client e.client_open e.client_room,
    read_message_over json env ask enc e.to_server server_rest e.ask_fits.0 e.ask_fits.1
        e.server_open e.server_reads,
  )

  pub answers :
      (env : Envelope)
      → Encodes json env answer
      → (write_message json env (left server server_rest)
          ≡ (ok tt, message_sent (left server server_rest) answer))
        × (read_message json (message_sent client ask)
            ≡ (ok env, left (message_sent client ask) client_rest))
  answers env enc =
      let head = header ask in
      (
        write_message_over json env answer enc (left server server_rest)
            (left_open server server_rest ∙ e.server_open)
            (omega (
              arith,
              ap length (message_bytes-left server server_rest answer),
              left_room server server_rest,
              e.server_room,
            )),
        read_message_over json env answer enc (Meets-receiver (Meets-receiver e.to_client head) ask)
            client_rest e.answer_fits.0
            (omega
              (arith, sent_limit (sent client head) ask, sent_limit client head, e.answer_fits))
            (message_sent_open client ask ∙ e.client_open)
            (sent_incoming (sent client head) ask ∙ sent_incoming client head ∙ e.client_reads),
      )

  -- What was sent by each end.
  pub asks_outgoing :
      (raw_of (left (message_sent client ask) client_rest)).outgoing
      ≡ (raw_of client).outgoing ++ message_bytes client ask
  asks_outgoing =
      left_outgoing (message_sent client ask) client_rest ∙ message_sent_outgoing client ask

  pub answers_outgoing :
      (raw_of (message_sent (left server server_rest) answer)).outgoing
      ≡ (raw_of server).outgoing ++ message_bytes server answer
  answers_outgoing =
      message_sent_outgoing (left server server_rest) answer
      ∙ ap (λ (o : List ℕ). o ++ message_bytes (left server server_rest) answer)
          (left_outgoing server server_rest)
      ∙ ap (λ (b : List ℕ). (raw_of server).outgoing ++ b)
          (message_bytes-left server server_rest answer)

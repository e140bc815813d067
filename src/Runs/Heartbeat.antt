-- ===== src/Runs/Heartbeat.antt =====
-- A client that receives a ping and another message, and a monitor that is stopped.
use rathole_pro.Prelude.{
  ℕ, zero, suc, ◌+◌, ◌-◌, ◌≤◌, ◌≡◌, refl, false, List, [], ◌∷◌, ◌++◌, length, none, some, arith,
}
use rathole_pro.Prelude.Words.{put_u32}
use rathole_pro.Prelude.Exec.{Result, ok, err, eof, wrapf}
use rathole_pro.Net.{Conn}
use rathole_pro.Protocol.{Json, Encodes, Envelope, empty_envelope, header}
use rathole_pro.Protocol.Framing.{frame}
use rathole_pro.Net.Wire.{conn_wire}
use rathole_pro.Prelude.Int.{pos}
use rathole_pro.Heartbeat.{
  Monitor, read_failed, ping_envelope, pong_envelope, client_heartbeat, new_monitor, stop, starts,
  calls_stop, Reaches, here, then_step,
}
use rathole_pro.Heartbeat.Answers.{Message, client_heartbeat-answers}
use rathole_pro.Heartbeat.Channels.{ClosesOnce, Reaches-ClosesOnce}

abbrev encode_message : Envelope → List ℕ
encode_message env = elim env.ping [
  | some _ ↦ 1 ∷ []
  | none ↦ elim env.pong [ some _ ↦ 2 ∷ [] | none ↦ [] ]
]

abbrev decode_message : List ℕ → Result Envelope
decode_message [] = ok empty_envelope
decode_message (suc zero ∷ []) = ok ping_envelope
decode_message (suc (suc zero) ∷ []) = ok pong_envelope
decode_message _ = err eof

abbrev codec : Json
codec = record { marshal = λ env. ok (encode_message env); unmarshal = decode_message }

abbrev messages : List (Message codec)
messages =
    record {
      env = ping_envelope;
      payload = 1 ∷ [];
      encodes = record { marshals = refl; unmarshals = refl; fits = omega arith };
    }
    ∷ record {
      env = empty_envelope;
      payload = [];
      encodes = record { marshals = refl; unmarshals = refl; fits = omega arith };
    }
    ∷ []

abbrev pong_encodes : Encodes codec pong_envelope (2 ∷ [])
pong_encodes = record { marshals = refl; unmarshals = refl; fits = omega arith }

abbrev conn : Conn
conn = record {
  incoming = frame (1 ∷ []) ++ (frame [] ++ []);
  outgoing = [];
  room = 50;
  closed = false;
}

pong_fits : length (frame (2 ∷ []) ++ []) ≤ 50
unfolding header put_u32
pong_fits = omega arith

client_heartbeat-answers_example : client_heartbeat codec 3 (λ i. false) 0 conn ≡ (
  read_failed (wrapf "read header" eof),
  record {
    incoming = [];
    outgoing = frame (2 ∷ []) ++ [];
    room = 50 - length (frame (2 ∷ []) ++ []);
    closed = false;
  },
)
client_heartbeat-answers_example =
    client_heartbeat-answers codec (2 ∷ []) pong_encodes 3 0 (λ i. false) messages conn (λ i. refl)
      refl refl pong_fits (omega arith)

abbrev started : Monitor
started = record (new_monitor (pos 0) (pos 0)) {
  running = (new_monitor (pos 0) (pos 0)).running + 1;
}

stopped_twice : Reaches (new_monitor (pos 0) (pos 0)) (stop (stop started))
stopped_twice = then_step (then_step (then_step here starts) calls_stop) calls_stop

Reaches-ClosesOnce_example : ClosesOnce (stop (stop started))
Reaches-ClosesOnce_example = Reaches-ClosesOnce (pos 0) (pos 0) (stop (stop started)) stopped_twice

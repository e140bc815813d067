-- ===== src/Protocol/Wires.antt =====
-- The messages of the protocol over any connection that sends and gives their bytes.
use rathole_pro.Prelude.{ℕ, ◌≡◌, refl, List, arith, length}
use rathole_pro.Prelude.Words.{put_u32, big_endian-put_u32}
use rathole_pro.Prelude.Exec.{ok}
use rathole_pro.Net.Wire.{Wire, Sends, Gives}
use rathole_pro.Protocol.{Json, Envelope, Encodes, header, write_message, read_message}

pub length-header : (payload : List ℕ) → length (header payload) ≡ 9
unfolding header put_u32
length-header payload = refl

module _ {S : Type 0} ⦃w : Wire S⦄ (json : Json) (env : Envelope) (payload : List ℕ)
    (enc : Encodes json env payload) where
  -- `WriteMessage` is two writes.
  pub write_message-Sends :
      (s s1 s2 : S)
      → Sends s (header payload) s1
      → Sends s1 payload s2
      → write_message json env s ≡ (ok tt, s2)
  unfolding write_message
  write_message-Sends s s1 s2 head rest = ground (arith, enc.marshals, enc.fits)

  -- `ReadMessage` is two reads.
  pub read_message-Gives :
      (s s1 s2 : S)
      → Gives s (header payload) s1
      → Gives s1 payload s2
      → read_message json s ≡ (ok env, s2)
  unfolding read_message header put_u32
  read_message-Gives s s1 s2 head rest =
      ground (arith, enc.fits, enc.unmarshals, big_endian-put_u32 (length payload))

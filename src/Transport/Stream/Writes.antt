-- ===== src/Transport/Stream/Writes.antt =====
-- A write of a stream and the read of the other end, whichever transport carries them.
use rathole_pro.Prelude.{
  ℕ, ◌-◌, ◌≤◌, ◌<◌, ◌≡◌, ◌∙◌, refl, ap, true, false, List, [], ◌++◌, length, arith,
}
use rathole_pro.Net.{Conn, close}
use rathole_pro.Net.Wire.{Sends, Gives}
use rathole_pro.Protocol.{max_frame_size}
use rathole_pro.Transport.Noise.{NoiseConn}
use rathole_pro.Transport.Noise.Framing.{noise_frame, length-xor_crypt}
use rathole_pro.Transport.WsFrame.{WsConn, frame, mask_key}
use rathole_pro.Transport.WsFrame.Header.{resume}
use rathole_pro.Transport.WsFrame.RoundTrip.{length-mask_key}
use rathole_pro.Transport.Stream.{
  Stream, plain, noise_stream, ws_stream, stream_wire, stream_close, raw_of,
}
use rathole_pro.Transport.Stream.Carries.{
  conn_sent, conn_rest, plain-Sends, plain-Gives, noise_sent, noise_rest, noise-Sends, noise-Gives,
  ws_sent, ws-Sends, ws-Gives,
}

-- The bytes that one `Write` puts on the connection below, and the stream afterwards.
abbrev pub write_bytes : Stream → List ℕ → List ℕ
write_bytes (plain c) b = b
write_bytes (noise_stream nc) b = noise_frame nc.enc_key b
write_bytes (ws_stream ws) b = frame ws.is_client 0x02 (mask_key ws) b

abbrev pub sent : Stream → List ℕ → Stream
sent (plain c) b = plain (conn_sent c b)
sent (noise_stream nc) b = noise_stream (noise_sent nc b)
sent (ws_stream ws) b = ws_stream (ws_sent ws b)

-- The stream when these bytes are left to come on the connection below.
abbrev pub left : Stream → List ℕ → Stream
left (plain c) rest = plain (conn_rest c rest)
left (noise_stream nc) rest = noise_stream (noise_rest nc rest)
left (ws_stream ws) rest = ws_stream (resume ws rest)

-- What one end of the stream writes, the other understands: the same transport at both ends, with
-- the key of the noise transport the same, and no bytes of an earlier frame unread.
pub data Meets : Stream → Stream → Type 0 where
  plain_meets : {c d : Conn} → Meets (plain c) (plain d)
  noise_meets : {n m : NoiseConn} → n.enc_key ≡ m.dec_key → Meets (noise_stream n) (noise_stream m)
  ws_meets : {v w : WsConn} → w.read_buf ≡ [] → Meets (ws_stream v) (ws_stream w)

-- The longest write that one read at the other end can take.
abbrev pub write_limit : Stream → ℕ
write_limit (plain c) = max_frame_size
write_limit (noise_stream nc) = 65535
write_limit (ws_stream ws) = max_frame_size

pub write-Sends :
    (s : Stream) (b : List ℕ)
    → (raw_of s).closed ≡ false
    → length (write_bytes s b) ≤ (raw_of s).room
    → Sends s b (sent s b)
write-Sends (plain c) b o h = plain-Sends b c o h
write-Sends (noise_stream nc) b o h =
    noise-Sends b nc o (ground (arith, length-xor_crypt b nc.enc_key))
write-Sends (ws_stream ws) b o h = ws-Sends b ws o h

pub read-Gives :
    {s r : Stream}
    → Meets s r
    → (b rest : List ℕ) → 0 < length b
    → length b ≤ write_limit r
    → (raw_of r).closed ≡ false
    → (raw_of r).incoming ≡ write_bytes s b ++ rest
    → Gives r b (left r rest)
read-Gives (plain_meets {d = d}) b rest pos small o e = plain-Gives b rest d o e
read-Gives (noise_meets {m = m} same) b rest pos small o e =
    noise-Gives b rest m pos small o (e ∙ ap (λ (k : List ℕ). noise_frame k b ++ rest) same)
read-Gives (ws_meets {v = v} {w = w} none_left) b rest pos small o e =
    ws-Gives v.is_client (mask_key v) b rest w pos (length-mask_key v) small o none_left e

-- A write changes neither the keys nor what is to be read.
pub Meets-sent : {s r : Stream} → Meets s r → (b rest : List ℕ) → Meets (sent s b) (left r rest)
Meets-sent plain_meets b rest = plain_meets
Meets-sent (noise_meets same) b rest = noise_meets same
Meets-sent (ws_meets none_left) b rest = ws_meets none_left

pub sent_open : (s : Stream) (b : List ℕ) → (raw_of (sent s b)).closed ≡ (raw_of s).closed
sent_open (plain c) b = refl
sent_open (noise_stream nc) b = refl
sent_open (ws_stream ws) b = refl

pub sent_room :
    (s : Stream) (b : List ℕ)
    → (raw_of (sent s b)).room ≡ (raw_of s).room - length (write_bytes s b)
sent_room (plain c) b = refl
sent_room (noise_stream nc) b = ground (arith, length-xor_crypt b nc.enc_key)
sent_room (ws_stream ws) b = refl

pub sent_outgoing :
    (s : Stream) (b : List ℕ)
    → (raw_of (sent s b)).outgoing ≡ (raw_of s).outgoing ++ write_bytes s b
sent_outgoing (plain c) b = refl
sent_outgoing (noise_stream nc) b = refl
sent_outgoing (ws_stream ws) b = refl

pub left_open : (r : Stream) (rest : List ℕ) → (raw_of (left r rest)).closed ≡ (raw_of r).closed
left_open (plain c) rest = refl
left_open (noise_stream nc) rest = refl
left_open (ws_stream ws) rest = refl

pub left_incoming : (r : Stream) (rest : List ℕ) → (raw_of (left r rest)).incoming ≡ rest
left_incoming (plain c) rest = refl
left_incoming (noise_stream nc) rest = refl
left_incoming (ws_stream ws) rest = refl

pub left_left : (r : Stream) (a b : List ℕ) → left (left r a) b ≡ left r b
left_left (plain c) a b = refl
left_left (noise_stream nc) a b = refl
left_left (ws_stream ws) a b = refl

pub left_limit : (r : Stream) (rest : List ℕ) → write_limit (left r rest) ≡ write_limit r
left_limit (plain c) rest = refl
left_limit (noise_stream nc) rest = refl
left_limit (ws_stream ws) rest = refl

pub limit_nine : (r : Stream) → 9 ≤ write_limit r
limit_nine (plain c) = omega arith
limit_nine (noise_stream nc) = omega arith
limit_nine (ws_stream ws) = omega arith

pub sent_incoming : (s : Stream) (b : List ℕ) → (raw_of (sent s b)).incoming ≡ (raw_of s).incoming
sent_incoming (plain c) b = refl
sent_incoming (noise_stream nc) b = refl
sent_incoming (ws_stream ws) b = refl

pub sent_limit : (s : Stream) (b : List ℕ) → write_limit (sent s b) ≡ write_limit s
sent_limit (plain c) b = refl
sent_limit (noise_stream nc) b = refl
sent_limit (ws_stream ws) b = refl

-- A write and a read do not get in each other's way.
pub sent-left : (s : Stream) (b rest : List ℕ) → sent (left s rest) b ≡ left (sent s b) rest
unfolding mask_key
sent-left (plain c) b rest = refl
sent-left (noise_stream nc) b rest = refl
sent-left (ws_stream ws) b rest = refl

pub write_bytes-left :
    (s : Stream) (rest b : List ℕ) → write_bytes (left s rest) b ≡ write_bytes s b
unfolding mask_key
write_bytes-left (plain c) rest b = refl
write_bytes-left (noise_stream nc) rest b = refl
write_bytes-left (ws_stream ws) rest b = refl

pub left_room : (s : Stream) (rest : List ℕ) → (raw_of (left s rest)).room ≡ (raw_of s).room
left_room (plain c) rest = refl
left_room (noise_stream nc) rest = refl
left_room (ws_stream ws) rest = refl

pub left_outgoing :
    (s : Stream) (rest : List ℕ) → (raw_of (left s rest)).outgoing ≡ (raw_of s).outgoing
left_outgoing (plain c) rest = refl
left_outgoing (noise_stream nc) rest = refl
left_outgoing (ws_stream ws) rest = refl

pub Meets-receiver : {s r : Stream} → Meets s r → (b : List ℕ) → Meets s (sent r b)
Meets-receiver plain_meets b = plain_meets
Meets-receiver (noise_meets same) b = noise_meets same
Meets-receiver (ws_meets none_left) b = ws_meets none_left

pub stream_close_lem :
    (s : Stream)
    → ((raw_of (stream_close s).1).closed ≡ true)
      × ((raw_of (stream_close s).1).outgoing ≡ (raw_of s).outgoing)
unfolding stream_close close
stream_close_lem (plain c) = (refl, refl)
stream_close_lem (noise_stream nc) = (refl, refl)
stream_close_lem (ws_stream ws) = (refl, refl)

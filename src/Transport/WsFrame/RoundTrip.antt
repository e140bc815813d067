-- ===== src/Transport/WsFrame/RoundTrip.antt =====
-- A frame that one side wrote is read back by the other.
use rathole_pro.Prelude.{
  ℕ, suc, ◌+◌, ◌^◌, ◌≤◌, ◌<◌, ◌≡◌, ◌≢◌, refl, Bool, true, false, List, [], ◌∷◌, ◌++◌, if◌then◌else◌,
  length, length-append, append_assoc, append-nil, bit_or, arith,
}
use rathole_pro.Prelude.Words.{put_u16, put_u64}
use rathole_pro.Prelude.Exec.{ok}
use rathole_pro.Net.Laws.{read_full-append, write_ok}
use rathole_pro.Transport.Xor.{xor_from, length-xor_from, xor_from_cancel}
use rathole_pro.Transport.WsFrame.{
  WsConn, max_payload, header_size, frame, mask_key, read_payload, read_frame, write_frame,
  write_ws,
}
use rathole_pro.Transport.WsFrame.Header.{
  resume, short_length, long_length, mask_flag, length_bytes_lem, short_length-lt, byte_one,
  read_length_lem, read_frame_head,
}

-- What stands behind the extended length.
abbrev pub frame_tail : Bool → List ℕ → List ℕ → List ℕ
frame_tail is_client key payload = if is_client then key ++ xor_from key 4 0 payload else payload

pub frame_lem :
    (is_client : Bool) (opcode : ℕ) (key payload : List ℕ)
    → length payload < 2 ^ 64
    → frame is_client opcode key payload
      ≡ bit_or 0x80 opcode
        ∷ (short_length (length payload) + mask_flag is_client)
        ∷ (long_length (length payload) ++ frame_tail is_client key payload)
unfolding frame
frame_lem is_client opcode key payload h =
    ground (arith, length_bytes_lem is_client (length payload))

-- The part of `readFrame` behind the two header bytes.
pub read_payload_lem :
    (is_client : Bool) (key payload rest : List ℕ) (ws : WsConn)
    → length key ≡ 4
    → length payload ≤ max_payload
    → ws.raw.closed ≡ false
    → ws.raw.incoming ≡ long_length (length payload) ++ (frame_tail is_client key payload ++ rest)
    → read_payload is_client (short_length (length payload)) ws ≡ (ok payload, resume ws rest)
unfolding read_payload xor_from
read_payload_lem true key [] rest ws k h open_conn e = ground (
  arith,
  read_length_lem 0 (key ++ rest) ws,
  append_assoc key [] rest,
  append-nil key,
  read_full-append key rest (record ws.raw { incoming = key ++ rest }),
)
read_payload_lem true key (x ∷ xs) rest ws k h open_conn e =
    let payload : List ℕ = x ∷ xs in
    let masked = xor_from key 4 0 payload in
    ground (
      arith,
      read_length_lem (length payload) ((key ++ masked) ++ rest) ws,
      append_assoc key masked rest,
      read_full-append key (masked ++ rest) (record ws.raw { incoming = (key ++ masked) ++ rest }),
      read_full-append masked rest (record ws.raw { incoming = masked ++ rest }),
      length-xor_from key 4 0 payload,
      xor_from_cancel key 4 0 payload,
    )
read_payload_lem false key [] rest ws k h open_conn e = ground (arith, read_length_lem 0 rest ws)
read_payload_lem false key (x ∷ xs) rest ws k h open_conn e = ground (
  arith,
  read_length_lem (length (x ∷ xs)) ((x ∷ xs) ++ rest) ws,
  read_full-append (x ∷ xs) rest (record ws.raw { incoming = (x ∷ xs) ++ rest }),
)

-- On an open connection `readFrame` gives back the payload of a frame of the other side, masked or
-- not, and leaves what follows, if its opcode is neither close nor ping, its key has 4 bytes and
-- its payload at most 16 MB.
pub read_frame-frame :
    (fuel : ℕ) (is_client : Bool) (opcode : ℕ) (key payload rest : List ℕ) (ws : WsConn)
    → opcode < 16
    → opcode ≢ 8
    → opcode ≢ 9
    → length key ≡ 4
    → length payload ≤ max_payload
    → ws.raw.closed ≡ false
    → ws.raw.incoming ≡ frame is_client opcode key payload ++ rest
    → read_frame (suc fuel) ws ≡ (ok payload, resume ws rest)
read_frame-frame fuel is_client opcode key payload rest ws small not_close not_ping k h open_conn
      e =
    ground (
      arith,
      frame_lem is_client opcode key payload,
      append_assoc (long_length (length payload)) (frame_tail is_client key payload) rest,
      read_frame_head fuel opcode (short_length (length payload) + mask_flag is_client)
          (long_length (length payload) ++ (frame_tail is_client key payload ++ rest)) ws,
      byte_one is_client (short_length (length payload)) (short_length-lt (length payload)),
      read_payload_lem is_client key payload rest
          (resume ws (long_length (length payload) ++ (frame_tail is_client key payload ++ rest))),
    )

pub length-mask_key : (ws : WsConn) → length (mask_key ws) ≡ 4
unfolding mask_key
length-mask_key ws = refl

-- The buffer that `writeFrame` allocates has exactly the size of what it fills in, with a key of 4
-- bytes and a payload below 2^64 bytes.
pub length-frame :
    (is_client : Bool) (opcode : ℕ) (key payload : List ℕ)
    → length key ≡ 4
    → length payload < 2 ^ 64
    → length (frame is_client opcode key payload)
      ≡ header_size is_client (length payload) + length payload
unfolding header_size put_u16 put_u64
length-frame is_client opcode key payload k h = ground (
  arith,
  frame_lem is_client opcode key payload,
  length-append (long_length (length payload)) (frame_tail is_client key payload),
  length-append key (xor_from key 4 0 payload),
  length-xor_from key 4 0 payload,
)

-- What `writeFrame` leaves on the wire.
pub write_frame_ok :
    (opcode : ℕ) (payload : List ℕ) (ws : WsConn)
    → ws.raw.closed ≡ false
    → length (frame ws.is_client opcode (mask_key ws) payload) ≤ ws.raw.room
    → ((write_frame opcode payload ws).0 ≡ ok tt)
      × ((write_frame opcode payload ws).1.raw.outgoing
          ≡ ws.raw.outgoing ++ frame ws.is_client opcode (mask_key ws) payload)
unfolding write_frame
write_frame_ok opcode payload ws open_conn h =
    ground (arith, write_ok (frame ws.is_client opcode (mask_key ws) payload) ws.raw)

-- What `Write` sends on an open connection with room for it and nothing sent before, at most 16
-- MB, `readFrame` at the other end gives back, whether it is masked or not, and leaves what
-- follows it.
pub read_frame-write_ws :
    (fuel : ℕ) (b rest : List ℕ) (sender receiver : WsConn)
    → length b ≤ max_payload
    → sender.raw.closed ≡ false
    → header_size sender.is_client (length b) + length b ≤ sender.raw.room
    → sender.raw.outgoing ≡ []
    → receiver.raw.closed ≡ false
    → receiver.raw.incoming ≡ (write_ws b sender).1.raw.outgoing ++ rest
    → ((write_ws b sender).0 ≡ ok (length b))
      × (read_frame (suc fuel) receiver ≡ (ok b, resume receiver rest))
unfolding write_ws
read_frame-write_ws fuel b rest sender receiver small o room fresh o' arrives = ground (
  arith,
  write_frame_ok 0x02 b sender,
  length-mask_key sender,
  length-frame sender.is_client 0x02 (mask_key sender) b,
  read_frame-frame fuel sender.is_client 0x02 (mask_key sender) b rest receiver,
)

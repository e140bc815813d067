-- ===== src/Transport/WsFrame.antt =====
-- go-core/transport/wsframe.go: WebSocket frames (RFC 6455) around a connection.
-- The mutex is left out: an operation of the model is one critical section.
pub mod Header
pub mod RoundTrip
pub mod Control
pub mod Stream
use rathole_pro.Prelude.{
  ℕ, zero, suc, ◌+◌, ◌*◌, ◌%◌, ◌^◌, ◌≡◌, Bool, true, false, not, ◌&&◌, List, [], ◌∷◌, ◌++◌, ltb,
  leb, ◌==◌, if◌then◌else◌, length, get_or, take, drop, bit_and, bit_or, min,
}
use rathole_pro.Prelude.Words.{u8, u16, put_u16, put_u64, big_endian}
use rathole_pro.Prelude.Exec.{
  Result, ok, err, eof, out_of_fuel, errorf, Exec, pure, raise, fail_if, done, wrap, attempt, ◌>>=◌,
  ◌>>◌,
}
use rathole_pro.Net.{close, Conn, read_full, read_padded, write}
use rathole_pro.Transport.Xor.{xor_from}

-- `WSConn`. `random` is what `crypto/rand` gives, and `drawn` how many of its bytes are used up.
pub record WsConn : Type 0 where
  pub raw : Conn
  pub is_client : Bool
  pub read_buf : List ℕ
  pub read_pos : ℕ
  pub random : ℕ → ℕ
  pub drawn : ℕ

unfoldable pub new_ws_conn : Conn → Bool → (ℕ → ℕ) → WsConn
new_ws_conn raw is_client random = record {
  raw = raw;
  is_client = is_client;
  read_buf = [];
  read_pos = 0;
  random = random;
  drawn = 0;
}

-- A call on `ws.raw`.
abbrev pub on_raw : {A : Type 0} → Exec Conn A → Exec WsConn A
on_raw x ws = let r = x ws.raw in (r.0, record ws { raw = r.1 })

abbrev pub max_payload : ℕ
max_payload = 16 * 1024 * 1024

-- `rand.Read(maskKey[:])`
unfoldable pub mask_key : WsConn → List ℕ
mask_key ws =
    u8 (ws.random ws.drawn)
    ∷ u8 (ws.random (ws.drawn + 1))
    ∷ u8 (ws.random (ws.drawn + 2))
    ∷ u8 (ws.random (ws.drawn + 3))
    ∷ []

unfoldable pub header_size : Bool → ℕ → ℕ
header_size is_client size =
    let base =
      2 + (if leb 126 size && ltb size 65536 then 2 else if leb 65536 size then 8 else 0) in
    if is_client then base + 4 else base

-- Byte 1 and the extended length.
unfoldable pub length_bytes : Bool → ℕ → List ℕ
length_bytes is_client size =
    let mask_bit = if is_client then 0x80 else 0 in
    if ltb size 126
    then bit_or mask_bit (u8 size) ∷ []
    else (if ltb size 65536
        then bit_or mask_bit 126 ∷ put_u16 (u16 size)
        else bit_or mask_bit 127 ∷ put_u64 (size % 2 ^ 64))

-- The buffer that `writeFrame` fills.
unfoldable pub frame : Bool → ℕ → List ℕ → List ℕ → List ℕ
frame is_client opcode key payload =
    (bit_or 0x80 opcode ∷ length_bytes is_client (length payload))
    ++ (if is_client then key ++ xor_from key 4 0 payload else payload)

unfoldable pub write_frame : ℕ → List ℕ → Exec WsConn (Unit {0})
write_frame opcode payload ws =
    let drawn = if ws.is_client then ws.drawn + 4 else ws.drawn in
    (do on_raw (write (frame ws.is_client opcode (mask_key ws) payload)); done)
      (record ws { drawn = drawn })

-- The payload length that follows byte 1.
unfoldable pub read_length : ℕ → Exec WsConn ℕ
read_length len7 =
    if len7 == 126
    then on_raw (do ext ← read_full 2; pure (big_endian ext))
    else (if len7 == 127 then on_raw (do ext ← read_full 8; pure (big_endian ext)) else pure len7)

-- The rest of `readFrame`, from the extended payload length on.
unfoldable pub read_payload : Bool → ℕ → Exec WsConn (List ℕ)
read_payload masked len7 = do
  size ← read_length len7
  key ← if masked then on_raw (read_full 4) else pure (0 ∷ 0 ∷ 0 ∷ 0 ∷ [])
  fail_if (ltb max_payload size) (errorf "ws frame too large")
  payload ← if ltb 0 size then on_raw (read_full size) else pure []
  pure (if masked then xor_from key 4 0 payload else payload)

-- A ping is answered, with the errors of the read and of the write ignored.
unfoldable pub answer_ping : ℕ → Exec WsConn (Unit {0})
answer_ping len7 = do
  ping_data ← if ltb 0 len7 then on_raw (read_padded len7) else pure []
  attempt (write_frame 0x0a ping_data)
  done

-- `readFrame`, which calls itself after a ping.
unfoldable pub read_frame : ℕ → Exec WsConn (List ℕ)
read_frame zero = raise out_of_fuel
read_frame (suc fuel) =
    let again = read_frame fuel in
    do
      head ← on_raw (wrap "ws read header" (read_full 2))
      let opcode = bit_and (get_or head 0 0) 0x0f
      let masked = not (bit_and (get_or head 1 0) 0x80 == 0)
      let len7 = bit_and (get_or head 1 0) 0x7f
      fail_if (opcode == 0x08) eof
      if opcode == 0x09 then (do answer_ping len7; again) else read_payload masked len7

-- Each round takes two bytes at least, so one round more than there are bytes is enough.
unfoldable pub next_frame : Exec WsConn (List ℕ)
next_frame ws = read_frame (suc (length ws.raw.incoming)) ws

-- `Read(b)` with `len(b) = size`: the bytes copied into `b`.
unfoldable pub read : ℕ → Exec WsConn (List ℕ)
read size ws =
    if ltb ws.read_pos (length ws.read_buf)
    then (let copied = take size (drop ws.read_pos ws.read_buf) in
        let pos = ws.read_pos + length copied in
        (
          ok copied,
          (if leb (length ws.read_buf) pos
              then record ws { read_buf = []; read_pos = 0 }
              else record ws { read_pos = pos }),
        ))
    else (do
      payload ← next_frame
      let copied = take size payload
      λ ws'. (
        ok copied,
        (if ltb (length copied) (length payload)
            then record ws' { read_buf = payload; read_pos = length copied }
            else ws'),
      ))
        ws

-- `Write(b)`: one binary frame.
unfoldable pub write_ws : List ℕ → Exec WsConn ℕ
write_ws b = do write_frame 0x02 b; pure (length b)

abbrev pub close_ws : Exec WsConn (Unit {0})
close_ws = on_raw close

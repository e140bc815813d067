-- ===== src/Transport/WsFrame/Header.antt =====
-- The two header bytes and the extended length, written and read back.
use rathole_pro.Prelude.{
  ℕ, suc, ◌+◌, ◌^◌, ◌<◌, ◌≡◌, ◌≢◌, Bool, true, false, not, List, [], ◌∷◌, ◌++◌, ltb, ◌==◌,
  if◌then◌else◌, bit_and, bit_or, arith,
}
use rathole_pro.Prelude.Bits.{low_four, low_seven, top_bit, set_top_bit, zero-bit_or}
use rathole_pro.Prelude.Words.{u8, put_u16, put_u64, big_endian-put_u16, big_endian-put_u64}
use rathole_pro.Prelude.Exec.{ok}
use rathole_pro.Net.Laws.{read_full-append}
use rathole_pro.Transport.WsFrame.{WsConn, length_bytes, read_length, read_payload, read_frame}

-- The connection after its next bytes are read up to `rest`.
abbrev pub resume : WsConn → List ℕ → WsConn
resume ws rest = record ws { raw = record ws.raw { incoming = rest } }

-- The seven low bits of byte 1, and the bytes behind it.
abbrev pub short_length : ℕ → ℕ
short_length size = if ltb size 126 then size else (if ltb size 65536 then 126 else 127)

abbrev pub long_length : ℕ → List ℕ
long_length size =
    if ltb size 126 then [] else (if ltb size 65536 then put_u16 size else put_u64 size)

abbrev pub mask_flag : Bool → ℕ
mask_flag is_client = if is_client then 128 else 0

pub length_bytes_lem :
    (is_client : Bool) (size : ℕ)
    → size < 2 ^ 64
    → length_bytes is_client size ≡ (short_length size + mask_flag is_client) ∷ long_length size
unfolding length_bytes
length_bytes_lem true size h =
    ground (arith, set_top_bit (u8 size), set_top_bit 126, set_top_bit 127)
length_bytes_lem false size h = ground (arith, zero-bit_or (u8 size))

pub short_length-lt : (size : ℕ) → short_length size < 128
short_length-lt size = ground arith

-- What byte 1 says.
pub byte_one :
    (is_client : Bool) (n : ℕ)
    → n < 128
    → (bit_and (n + mask_flag is_client) 0x7f ≡ n)
      × (not (bit_and (n + mask_flag is_client) 0x80 == 0) ≡ is_client)
byte_one true n h = ground (arith, low_seven (n + 128), top_bit (n + 128))
byte_one false n h = ground (arith, low_seven (n + 0), top_bit (n + 0))

pub read_length_lem :
    (size : ℕ) (rest : List ℕ) (ws : WsConn)
    → size < 2 ^ 64
    → ws.raw.closed ≡ false
    → ws.raw.incoming ≡ long_length size ++ rest
    → read_length (short_length size) ws ≡ (ok size, resume ws rest)
unfolding read_length put_u16 put_u64
read_length_lem size rest ws h open_conn e = ground (
  arith,
  read_full-append (put_u16 size) rest ws.raw,
  read_full-append (put_u64 size) rest ws.raw,
  big_endian-put_u16 size,
  big_endian-put_u64 size,
)

-- `readFrame` on the header of a frame that is neither a close nor a ping.
pub read_frame_head :
    (fuel opcode b : ℕ) (tail : List ℕ) (ws : WsConn)
    → opcode < 16
    → opcode ≢ 8
    → opcode ≢ 9
    → ws.raw.closed ≡ false
    → ws.raw.incoming ≡ bit_or 0x80 opcode ∷ b ∷ tail
    → read_frame (suc fuel) ws
      ≡ read_payload (not (bit_and b 0x80 == 0)) (bit_and b 0x7f) (resume ws tail)
unfolding read_frame
read_frame_head fuel opcode b tail ws small not_close not_ping open_conn e = ground (
  arith,
  set_top_bit opcode,
  low_four (opcode + 128),
  read_full-append (bit_or 0x80 opcode ∷ b ∷ []) tail ws.raw,
)

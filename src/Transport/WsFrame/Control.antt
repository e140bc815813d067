-- ===== src/Transport/WsFrame/Control.antt =====
-- Close and ping frames, the limit on a payload, and the end of the recursion in `readFrame`.
use rathole_pro.Prelude.{
  ℕ, zero, suc, ◌+◌, ◌≤◌, ◌<◌, ◌≡◌, ◌≢◌, refl, ap, Bool, false, not, List, [], ◌∷◌, ◌++◌, ◌==◌,
  length, length-append, append_assoc, arith, length-take, length-drop, bit_and, inl, inr, get_or,
}
use rathole_pro.Prelude.Bits.{low_seven}
use rathole_pro.Prelude.Exec.{out_of_fuel, ok, err}
use rathole_pro.Net.{Conn, read_full, read_padded, write}
use rathole_pro.Net.Laws.{read_padded-append, read_full-append, read_full_cases, write_ok}
use rathole_pro.Transport.Xor.{length-xor_from}
use rathole_pro.Transport.WsFrame.{
  WsConn, max_payload, frame, mask_key, read_length, read_payload, answer_ping, read_frame,
  next_frame, write_frame,
}
use rathole_pro.Transport.WsFrame.Header.{resume}

pub read_full-ne-out_of_fuel : (n : ℕ) (c : Conn) → (read_full n c).0 ≢ err out_of_fuel
unfolding read_full
read_full-ne-out_of_fuel n c e = ground arith

read_length-ne-out_of_fuel : (n : ℕ) (ws : WsConn) → (read_length n ws).0 ≢ err out_of_fuel
unfolding read_length
read_length-ne-out_of_fuel n ws e =
    ground (arith, read_full-ne-out_of_fuel 2 ws.raw, read_full-ne-out_of_fuel 8 ws.raw)

read_payload-ne-out_of_fuel :
    (masked : Bool) (n : ℕ) (ws : WsConn) → (read_payload masked n ws).0 ≢ err out_of_fuel
unfolding read_payload
read_payload-ne-out_of_fuel masked n ws e =
    grind (arith, read_full-ne-out_of_fuel, read_length-ne-out_of_fuel)

pub answer_ping_shrinks :
    (n : ℕ) (ws : WsConn)
    → ((answer_ping n ws).0 ≡ ok tt)
      × (length (answer_ping n ws).1.raw.incoming ≤ length ws.raw.incoming)
unfolding answer_ping write_frame write read_padded
answer_ping_shrinks n ws = ground (arith, length-drop n ws.raw.incoming)

pub read_frame-ne-out_of_fuel :
    (fuel : ℕ) (ws : WsConn)
    → length ws.raw.incoming < fuel
    → (read_frame fuel ws).0 ≢ err out_of_fuel
unfolding read_frame
read_frame-ne-out_of_fuel zero ws h e = absurd (omega arith)
read_frame-ne-out_of_fuel (suc fuel) ws h e = elim (read_full_cases 2 ws.raw) [
  | inr (x, d, r) ↦ ground arith
  | inl (head, rest, r, len, split) ↦ ground (
    arith,
    ap length split,
    length-append head rest,
    answer_ping_shrinks (bit_and (get_or head 1 0) 0x7f) (resume ws rest),
    read_frame-ne-out_of_fuel fuel
        (answer_ping (bit_and (get_or head 1 0) 0x7f) (resume ws rest)).1,
    read_payload-ne-out_of_fuel (not (bit_and (get_or head 1 0) 0x80 == 0))
        (bit_and (get_or head 1 0) 0x7f) (resume ws rest),
  )
]

-- `readFrame` returns on every connection: the rounds that the model gives it are enough.
pub next_frame-ne-out_of_fuel : (ws : WsConn) → (next_frame ws).0 ≢ err out_of_fuel
unfolding next_frame
next_frame-ne-out_of_fuel ws =
    read_frame-ne-out_of_fuel (suc (length ws.raw.incoming)) ws (omega arith)

length-read_full : (n : ℕ) (c : Conn) {xs : List ℕ} → (read_full n c).0 ≡ ok xs → length xs ≡ n
unfolding read_full
length-read_full n c e = ground (arith, length-take n c.incoming)

read_payload_bounded :
    (masked : Bool) (n : ℕ) (ws : WsConn) (p : List ℕ)
    → (read_payload masked n ws).0 ≡ ok p
    → length p ≤ max_payload
unfolding read_payload
read_payload_bounded masked n ws p e = grind (arith, length-read_full, length-xor_from)

-- No payload that `readFrame` returns is longer than 16 MB.
pub read_frame_bounded :
    (fuel : ℕ) (ws : WsConn) (p : List ℕ) → (read_frame fuel ws).0 ≡ ok p → length p ≤ max_payload
unfolding read_frame
read_frame_bounded zero ws p e = cc
read_frame_bounded (suc fuel) ws p e = elim (read_full_cases 2 ws.raw) [
  | inr (x, d, r) ↦ ground arith
  | inl (head, rest, r, len, split) ↦
      let len7 = bit_and (get_or head 1 0) 0x7f in
      ground (
        arith,
        read_frame_bounded fuel (answer_ping len7 (resume ws rest)).1 p,
        read_payload_bounded (not (bit_and (get_or head 1 0) 0x80 == 0)) len7 (resume ws rest) p,
        answer_ping_shrinks len7 (resume ws rest),
      )
]

answer_ping_lem :
    (sent rest : List ℕ) (ws : WsConn)
    → ws.raw.closed ≡ false
    → ws.raw.incoming ≡ sent ++ rest
    → length (frame ws.is_client 0x0a (mask_key ws) sent) ≤ ws.raw.room
    → ((answer_ping (length sent) ws).1.raw.incoming ≡ rest)
      × ((answer_ping (length sent) ws).1.raw.outgoing
          ≡ ws.raw.outgoing ++ frame ws.is_client 0x0a (mask_key ws) sent)
unfolding answer_ping write_frame mask_key
answer_ping_lem [] rest ws open_conn e room =
    ground (arith, write_ok (frame ws.is_client 0x0a (mask_key ws) []) ws.raw)
answer_ping_lem (x ∷ xs) rest ws open_conn e room = ground (
  arith,
  read_padded-append (x ∷ xs) rest ws.raw,
  write_ok (frame ws.is_client 0x0a (mask_key ws) (x ∷ xs)) (record ws.raw { incoming = rest }),
)

-- On an open connection with room for the pong, a ping is answered by a pong with the bytes that
-- follow its header, as many as the seven low bits of byte 1 say, and reading goes on behind them.
pub read_frame-ping :
    (fuel b : ℕ) (sent rest : List ℕ) (ws : WsConn)
    → ws.raw.closed ≡ false
    → ws.raw.incoming ≡ 0x89 ∷ b ∷ (sent ++ rest)
    → bit_and b 0x7f ≡ length sent
    → length (frame ws.is_client 0x0a (mask_key ws) sent) ≤ ws.raw.room
    → (v : WsConn) × (read_frame (suc fuel) ws ≡ read_frame fuel v)
      × (v.raw.incoming ≡ rest)
      × (v.raw.outgoing ≡ ws.raw.outgoing ++ frame ws.is_client 0x0a (mask_key ws) sent)
unfolding read_frame mask_key
read_frame-ping fuel b sent rest ws open_conn e size room =
    let v = resume ws (sent ++ rest) in
    let (i, o) = answer_ping_lem sent rest v open_conn refl room in
    (
      (answer_ping (length sent) v).1,
      ground (
        arith,
        answer_ping_shrinks (length sent) v,
        read_full-append (0x89 ∷ b ∷ []) (sent ++ rest) ws.raw,
      ),
      i,
      o,
    )

-- On an open connection with room for the pong, a masked ping of 4 to 125 bytes is read as if it
-- had no mask key: the pong carries the key and the masked bytes without the last four, and
-- reading goes on at those four.
pub read_frame-masked_ping :
    (fuel : ℕ) (key front back rest : List ℕ) (ws : WsConn)
    → length key ≡ 4
    → length back ≡ 4
    → length front < 122
    → ws.raw.closed ≡ false
    → ws.raw.incoming ≡ 0x89 ∷ (128 + length (front ++ back)) ∷ (key ++ ((front ++ back) ++ rest))
    → length (frame ws.is_client 0x0a (mask_key ws) (key ++ front)) ≤ ws.raw.room
    → (v : WsConn) × (read_frame (suc fuel) ws ≡ read_frame fuel v)
      × (v.raw.incoming ≡ back ++ rest)
      × (v.raw.outgoing ≡ ws.raw.outgoing ++ frame ws.is_client 0x0a (mask_key ws) (key ++ front))
read_frame-masked_ping fuel key front back rest ws k b f open_conn e room =
    read_frame-ping fuel (128 + length (front ++ back)) (key ++ front) (back ++ rest) ws open_conn
      (ground (arith, append_assoc key front (back ++ rest), append_assoc front back rest))
      (ground (
        arith,
        low_seven (128 + length (front ++ back)),
        length-append front back,
        length-append key front,
      ))
      room

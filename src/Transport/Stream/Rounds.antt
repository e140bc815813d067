-- ===== src/Transport/Stream/Rounds.antt =====
-- `io.ReadFull` over the transports comes to its end: each `Read` gives bytes or takes some.
use rathole_pro.Prelude.{
  ℕ, zero, suc, ◌+◌, ◌≤◌, ◌<◌, ◌≡◌, ◌≢◌, ap, Bool, not, List, [], ◌==◌, length, length-append, take,
  drop, length-take, length-drop, bit_and, get_or, inl, inr, arith,
}
use rathole_pro.Prelude.Exec.{out_of_fuel, ok, err}
use rathole_pro.Net.{Conn, read_full}
use rathole_pro.Net.Laws.{read_full_cases}
use rathole_pro.Net.Wire.Full.{Advances, full_loop-ne-out_of_fuel}
use rathole_pro.Transport.Noise.{NoiseConn, noise_read}
use rathole_pro.Transport.WsFrame.{
  WsConn, read, read_length, read_payload, answer_ping, read_frame, next_frame,
}
use rathole_pro.Transport.WsFrame.Header.{resume}
use rathole_pro.Transport.WsFrame.Control.{
  answer_ping_shrinks, next_frame-ne-out_of_fuel, read_full-ne-out_of_fuel,
}
use rathole_pro.Transport.Stream.{
  stream_wire, Stream, plain, noise_stream, ws_stream, stream_read_full, noise_read_full,
  ws_read_full,
}

read_full_shrinks : (n : ℕ) (c : Conn) → length (read_full n c).1.incoming ≤ length c.incoming
unfolding read_full
read_full_shrinks n c = ground (arith, length-drop n c.incoming)

noise_read-ne-out_of_fuel : (n : ℕ) (nc : NoiseConn) → (noise_read n nc).0 ≢ err out_of_fuel
unfolding noise_read
noise_read-ne-out_of_fuel n nc e = grind (arith, read_full-ne-out_of_fuel)

-- A `Read` takes its two header bytes.
noise_read_takes :
    (n : ℕ) (nc : NoiseConn) (xs : List ℕ)
    → (noise_read n nc).0 ≡ ok xs
    → length (noise_read n nc).1.raw.incoming + 2 ≤ length nc.raw.incoming
unfolding noise_read
noise_read_takes n nc xs e = elim (read_full_cases 2 nc.raw) [
  | inr (x, d, r) ↦ ground arith
  | inl (head, rest, r, len, split) ↦
      grind (arith, ap length split, length-append head rest, read_full_shrinks)
]

noise_read-Advances : Advances noise_read (λ nc. length nc.raw.incoming)
noise_read-Advances = record {
  returns = noise_read-ne-out_of_fuel;
  never_more = λ n nc xs e. omega (arith, noise_read_takes n nc xs e);
  some_less = λ n nc xs pos e. omega (arith, noise_read_takes n nc xs e);
}

read_length_shrinks :
    (n : ℕ) (ws : WsConn) → length (read_length n ws).1.raw.incoming ≤ length ws.raw.incoming
unfolding read_length
read_length_shrinks n ws = ground (arith, read_full_shrinks 2 ws.raw, read_full_shrinks 8 ws.raw)

read_payload_shrinks :
    (masked : Bool) (n : ℕ) (ws : WsConn)
    → length (read_payload masked n ws).1.raw.incoming ≤ length ws.raw.incoming
unfolding read_payload
read_payload_shrinks masked n ws = grind (arith, read_full_shrinks, read_length_shrinks)

-- A frame that `readFrame` returns took its two header bytes.
read_frame_takes :
    (fuel : ℕ) (ws : WsConn) (xs : List ℕ)
    → (read_frame fuel ws).0 ≡ ok xs
    → length (read_frame fuel ws).1.raw.incoming + 2 ≤ length ws.raw.incoming
unfolding read_frame
read_frame_takes zero ws xs e = ground arith
read_frame_takes (suc fuel) ws xs e = elim (read_full_cases 2 ws.raw) [
  | inr (x, d, r) ↦ ground arith
  | inl (head, rest, r, len, split) ↦ ground (
    arith,
    ap length split,
    length-append head rest,
    answer_ping_shrinks (bit_and (get_or head 1 0) 0x7f) (resume ws rest),
    read_frame_takes fuel (answer_ping (bit_and (get_or head 1 0) 0x7f) (resume ws rest)).1 xs,
    read_payload_shrinks (not (bit_and (get_or head 1 0) 0x80 == 0))
        (bit_and (get_or head 1 0) 0x7f) (resume ws rest),
  )
]

read-ne-out_of_fuel : (n : ℕ) (ws : WsConn) → (read n ws).0 ≢ err out_of_fuel
unfolding read
read-ne-out_of_fuel n ws e = ground (arith, next_frame-ne-out_of_fuel ws)

read_never_more :
    (n : ℕ) (ws : WsConn) (xs : List ℕ)
    → (read n ws).0 ≡ ok xs
    → length (read n ws).1.raw.incoming ≤ length ws.raw.incoming
unfolding read next_frame
read_never_more n ws xs e = grind (arith, read_frame_takes)

read_some_less :
    (n : ℕ) (ws : WsConn) (xs : List ℕ)
    → 0 < n
    → (read n ws).0 ≡ ok xs
    → length (read n ws).1.raw.incoming < length ws.raw.incoming + length xs
unfolding read next_frame
read_some_less n ws xs pos e = grind (arith, read_frame_takes, take, drop, length-take, length-drop)

read-Advances : Advances read (λ ws. length ws.raw.incoming)
read-Advances = record {
  returns = read-ne-out_of_fuel;
  never_more = read_never_more;
  some_less = read_some_less;
}

-- `io.ReadFull` over the `Read` of a bare connection, of the noise transport and of WebSocket frames
-- comes to its end on every stream, whatever frames, pings and empty frames are to come: the rounds
-- that the model gives it and `readFrame` are enough.
pub stream_read_full-ne-out_of_fuel :
    (n : ℕ) (s : Stream) → (stream_read_full n s).0 ≢ err out_of_fuel
unfolding stream_read_full noise_read_full ws_read_full
stream_read_full-ne-out_of_fuel n (plain c) = read_full-ne-out_of_fuel n c
stream_read_full-ne-out_of_fuel n (noise_stream nc) =
    full_loop-ne-out_of_fuel noise_read (λ c. length c.raw.incoming) noise_read-Advances
      (suc (n + length nc.raw.incoming)) n [] nc (omega arith)
stream_read_full-ne-out_of_fuel n (ws_stream ws) =
    full_loop-ne-out_of_fuel read (λ c. length c.raw.incoming) read-Advances
      (suc (n + length ws.raw.incoming)) n [] ws (omega arith)

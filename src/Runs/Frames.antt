-- ===== src/Runs/Frames.antt =====
-- WebSocket frames on a small connection.
use rathole_pro.Prelude.{
  ℕ, ◌+◌, ◌≤◌, ◌≡◌, ◌≢◌, ap, refl, Bool, true, false, List, [], ◌∷◌, ◌++◌, length, arith,
}
use rathole_pro.Prelude.Exec.{ok, err, eof, out_of_fuel, wrapf}
use rathole_pro.Transport.WsFrame.{WsConn, frame, header_size, mask_key, write_ws, read_frame}
use rathole_pro.Transport.WsFrame.Header.{resume}
use rathole_pro.Transport.WsFrame.RoundTrip.{read_frame-frame, length-frame, length-mask_key}
use rathole_pro.Transport.WsFrame.Stream.{Frame, wire, Carries, read_to_end, read_to_end_lem}
use rathole_pro.Transport.WsFrame.Control.{read_frame-masked_ping}
use rathole_pro.Transport.Stream.{ws_stream, stream_read_full}
use rathole_pro.Transport.Stream.Rounds.{stream_read_full-ne-out_of_fuel}

abbrev side_of : Bool → List ℕ → List ℕ → ℕ → ℕ → WsConn
side_of is_client incoming buffered pos room = record {
  raw = record { incoming = incoming; outgoing = []; room = room; closed = false };
  is_client = is_client;
  read_buf = buffered;
  read_pos = pos;
  random = λ i. i + 1;
  drawn = 0;
}

abbrev key : List ℕ
key = 1 ∷ 2 ∷ 3 ∷ 4 ∷ []

abbrev two : List Frame
two =
    record { key = key; payload = 10 ∷ 20 ∷ 30 ∷ [] }
    ∷ record { key = key; payload = 40 ∷ 50 ∷ [] }
    ∷ []

abbrev server : WsConn
server = side_of false (wire true two) (7 ∷ 8 ∷ 9 ∷ []) 1 0

server-Carries : Carries true server two
server-Carries = record { is_open = refl; arrives = refl; sound = omega arith }

read_to_end_lem_example :
    read_to_end 20 2 server ≡ (8 ∷ 9 ∷ 10 ∷ 20 ∷ 30 ∷ 40 ∷ 50 ∷ [], wrapf "ws read header" eof)
read_to_end_lem_example =
    read_to_end_lem 20 true 2 two server (omega arith) server-Carries (omega arith)

abbrev one_frame : WsConn
one_frame = side_of false (frame true 2 key (10 ∷ 20 ∷ []) ++ 99 ∷ []) [] 0 0

read_frame-frame_example : read_frame 1 one_frame ≡ (ok (10 ∷ 20 ∷ []), resume one_frame (99 ∷ []))
read_frame-frame_example =
    read_frame-frame 0 true 2 key (10 ∷ 20 ∷ []) (99 ∷ []) one_frame (omega arith) (omega arith)
      (omega arith) refl (omega arith) refl refl

abbrev sender : WsConn
sender = side_of false [] [] 0 100

abbrev receiver : WsConn
receiver = side_of true ((write_ws (10 ∷ 20 ∷ []) sender).1.raw.outgoing ++ 99 ∷ []) [] 0 0

sender_fits : header_size false 2 + 2 ≤ 100
unfolding header_size
sender_fits = omega arith

stream_read_full-ne-out_of_fuel_example :
    (stream_read_full 3 (ws_stream one_frame)).0 ≢ err out_of_fuel
stream_read_full-ne-out_of_fuel_example = stream_read_full-ne-out_of_fuel 3 (ws_stream one_frame)

one_frame_read : (read_frame 1 one_frame).0 ≡ ok (10 ∷ 20 ∷ [])
one_frame_read =
    ap (λ r. r.0)
      (read_frame-frame 0 true 2 key (10 ∷ 20 ∷ []) (99 ∷ []) one_frame (omega arith) (omega arith)
        (omega arith) refl (omega arith) refl refl)

abbrev pinged : WsConn
pinged = side_of false (0x89 ∷ 1 ∷ (5 ∷ []) ++ 99 ∷ []) [] 0 100

pong_fits : length (frame false 0x0a (mask_key pinged) (5 ∷ [])) ≤ 100
unfolding header_size
pong_fits =
    ground (arith, length-frame false 0x0a (mask_key pinged) (5 ∷ []), length-mask_key pinged)

abbrev masked : WsConn
masked =
    side_of false (0x89 ∷ 133 ∷ (key ++ ((50 ∷ []) ++ 61 ∷ 62 ∷ 63 ∷ 64 ∷ []) ++ 99 ∷ [])) [] 0 100

masked_pong_fits : length (frame false 0x0a (mask_key masked) (key ++ 50 ∷ [])) ≤ 100
unfolding header_size
masked_pong_fits =
    ground
      (arith, length-frame false 0x0a (mask_key masked) (key ++ 50 ∷ []), length-mask_key masked)

read_frame-masked_ping_example :
    (v : WsConn) × (read_frame 1 masked ≡ read_frame 0 v)
    × (v.raw.incoming ≡ 61 ∷ 62 ∷ 63 ∷ 64 ∷ 99 ∷ [])
    × (v.raw.outgoing ≡ frame false 0x0a (mask_key masked) (key ++ 50 ∷ []))
read_frame-masked_ping_example =
    read_frame-masked_ping 0 key (50 ∷ []) (61 ∷ 62 ∷ 63 ∷ 64 ∷ []) (99 ∷ []) masked refl refl
      (omega arith) refl refl masked_pong_fits

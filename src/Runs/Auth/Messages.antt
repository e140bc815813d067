-- ===== src/Runs/Auth/Messages.antt =====
-- A message written and read back.
use rathole_pro.Prelude.{ℕ, ◌≤◌, ◌≡◌, refl, List, [], ◌∷◌, ◌++◌, length, arith}
use rathole_pro.Prelude.Exec.{ok}
use rathole_pro.Net.{Conn}
use rathole_pro.Net.Wire.{conn_wire}
use rathole_pro.Transport.Stream.{Stream, raw_of, stream_wire}
use rathole_pro.Transport.Stream.Writes.{noise_meets, left}
use rathole_pro.Transport.Stream.Messages.{read_message-write_message_over}
use rathole_pro.Runs.Auth.Handshakes.{noise_end, noise_room}
use rathole_pro.Prelude.Words.{IsBytes, put_u32}
use rathole_pro.Protocol.{header, max_frame_size, read_message, write_message}
use rathole_pro.Protocol.Framing.{frame, read_message_ok}
use rathole_pro.Protocol.Accepts.{read_message_inv}
use rathole_pro.Client.Handshake.{end_of}
use rathole_pro.Runs.Auth.{codec, auth_message, Encodes_auth}

abbrev writer : Stream
writer = noise_end []

abbrev reader : Stream
reader =
    noise_end ((raw_of (write_message (codec "") (auth_message "") writer).1).outgoing ++ 5 ∷ [])

read_message-write_message_over_example :
    ((write_message (codec "") (auth_message "") writer).0 ≡ ok tt)
    × (read_message (codec "") reader ≡ (ok (auth_message ""), left reader (5 ∷ [])))
read_message-write_message_over_example =
    read_message-write_message_over (codec "") (auth_message "") (1 ∷ []) (Encodes_auth "")
      {s = writer} {r = reader} (noise_meets refl) (5 ∷ []) (omega arith) (omega arith) refl
      (noise_room 1) refl refl refl

abbrev two_frames : Conn
two_frames = end_of (frame (1 ∷ []) ++ 5 ∷ []) [] 0

two_frames-IsBytes : IsBytes two_frames.incoming
unfolding header put_u32
two_frames-IsBytes = omega arith

read_message_inv_example :
    (payload : List ℕ) × (two_frames.incoming ≡ frame payload ++ 5 ∷ [])
    × ((codec "").unmarshal payload ≡ ok (auth_message ""))
    × (length payload ≤ max_frame_size)
read_message_inv_example =
    read_message_inv (codec "") (auth_message "") two_frames (end_of (5 ∷ []) [] 0)
      two_frames-IsBytes
      (read_message_ok (codec "") (auth_message "") (1 ∷ []) (Encodes_auth "") (5 ∷ []) two_frames
        refl refl)

-- ===== src/Udp/Frames.antt =====
-- Frames from the server's side to the client's, and back along the address key.
use rathole_pro.Prelude.{ℕ, ◌<◌, ◌≡◌, false, List, [], ◌∷◌, ◌++◌, append_assoc, length, arith}
use rathole_pro.Prelude.Words.{u16, put_u16, big_endian, big_endian-put_u16}
use rathole_pro.Prelude.Exec.{ok}
use rathole_pro.Net.{Conn, read_full}
use rathole_pro.Net.Laws.{read_full-append}
use rathole_pro.Udp.{server_frame, read_server_frame, read_client_frame}

-- A length field of two bytes, read back.
read_length :
    (xs rest : List ℕ) (c : Conn)
    → length xs < 65536
    → c.closed ≡ false
    → c.incoming ≡ put_u16 (u16 (length xs)) ++ rest
    → (read_full 2 c ≡ (ok (put_u16 (u16 (length xs))), record c { incoming = rest }))
      × (big_endian (put_u16 (u16 (length xs))) ≡ length xs)
unfolding put_u16
read_length xs rest c h open_conn e =
    ground
      (arith, read_full-append (put_u16 (u16 (length xs))) rest c, big_endian-put_u16 (length xs))

pub read_server_frame_ok :
    (key payload rest : List ℕ) (c : Conn)
    → length key < 65536
    → length payload < 65536
    → c.closed ≡ false
    → c.incoming ≡ server_frame key payload ++ rest
    → read_server_frame c ≡ (ok (key, payload), record c { incoming = rest })
unfolding read_server_frame server_frame
read_server_frame_ok key payload rest c k p open_conn e =
    let tail = put_u16 (u16 (length payload)) ++ (payload ++ rest) in
    ground (
      arith,
      append_assoc (put_u16 (u16 (length key))) (key ++ (put_u16 (u16 (length payload)) ++ payload))
          rest,
      append_assoc key (put_u16 (u16 (length payload)) ++ payload) rest,
      append_assoc (put_u16 (u16 (length payload))) payload rest,
      read_length key (key ++ tail) c,
      read_full-append key tail (record c { incoming = key ++ tail }),
      read_length payload (payload ++ rest) (record c { incoming = tail }),
      read_full-append payload rest (record c { incoming = payload ++ rest }),
    )

-- The client's side skips the address key and gets the payload.
pub read_client_frame_ok :
    (key payload rest : List ℕ) (c : Conn)
    → length key < 65536
    → length payload < 65536
    → c.closed ≡ false
    → c.incoming ≡ server_frame key payload ++ rest
    → read_client_frame c ≡ (ok payload, record c { incoming = rest })
unfolding read_client_frame server_frame
read_client_frame_ok [] payload rest c k p open_conn e =
    let tail = put_u16 (u16 (length payload)) ++ (payload ++ rest) in
    ground (
      arith,
      append_assoc (put_u16 (u16 0)) (put_u16 (u16 (length payload)) ++ payload) rest,
      append_assoc (put_u16 (u16 (length payload))) payload rest,
      read_length [] tail c,
      read_length payload (payload ++ rest) (record c { incoming = tail }),
      read_full-append payload rest (record c { incoming = payload ++ rest }),
    )
read_client_frame_ok (x ∷ xs) payload rest c k p open_conn e =
    let key : List ℕ = x ∷ xs in
    let tail = put_u16 (u16 (length payload)) ++ (payload ++ rest) in
    ground (
      arith,
      append_assoc (put_u16 (u16 (length key))) (key ++ (put_u16 (u16 (length payload)) ++ payload))
          rest,
      append_assoc key (put_u16 (u16 (length payload)) ++ payload) rest,
      append_assoc (put_u16 (u16 (length payload))) payload rest,
      read_length key (key ++ tail) c,
      read_full-append key tail (record c { incoming = key ++ tail }),
      read_length payload (payload ++ rest) (record c { incoming = tail }),
      read_full-append payload rest (record c { incoming = payload ++ rest }),
    )

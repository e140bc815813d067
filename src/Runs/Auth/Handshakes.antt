-- ===== src/Runs/Auth/Handshakes.antt =====
-- A session is let in over the noise transport, and a wrong token is not over WebSocket frames.
use rathole_pro.Prelude.{
  ℕ, ◌+◌, ◌≤◌, ◌≡◌, refl, Bool, true, false, List, [], ◌∷◌, ◌++◌, length, arith,
}
use rathole_pro.Prelude.Exec.{ok, err, errorf, wrapf}
use rathole_pro.Prelude.Words.{put_u32}
use rathole_pro.Config.{service_type}
use rathole_pro.Protocol.{header}
use rathole_pro.Transport.Xor.{xor_from}
use rathole_pro.Transport.Noise.{xor_crypt}
use rathole_pro.Transport.WsFrame.{frame, mask_key, length_bytes}
use rathole_pro.Transport.Stream.{Stream, noise_stream, ws_stream, stream_wire, raw_of}
use rathole_pro.Transport.Stream.Writes.{noise_meets, ws_meets, left}
use rathole_pro.Transport.Stream.Messages.{message_bytes, message_sent, Ends}
use rathole_pro.Server.Auth.{Served, bad_token, joined, handle_client_conn}
use rathole_pro.Server.Auth.Admission.{Joins}
use rathole_pro.Client.{authenticate}
use rathole_pro.Client.Handshake.{end_of, BothSent, handshake_accepts, handshake_rejects}
use rathole_pro.Runs.Auth.{
  service, server_config, client_config, hash, yamux, codec, Encodes_ok, Encodes_bad, secret_set,
  wrong_set, tokens_differ, meeting_of, pools, pools-HasPool,
}

abbrev pub noise_end : List ℕ → Stream
noise_end incoming =
    noise_stream
      (record { raw = end_of incoming [] 1000; enc_key = 5 ∷ 6 ∷ []; dec_key = 5 ∷ 6 ∷ [] })

pub noise_room : (b : ℕ) → length (message_bytes (noise_end []) (b ∷ [])) ≤ 1000
unfolding header put_u32 xor_crypt xor_from
noise_room b = omega arith

abbrev noise_client : Stream
noise_client = noise_end (message_bytes (noise_end []) (2 ∷ []) ++ 4 ∷ [])

abbrev noise_server : Stream
noise_server = noise_end (message_bytes (noise_end []) (1 ∷ []) ++ [])

abbrev noise_ends : Ends noise_client noise_server (1 ∷ []) (2 ∷ []) [] (4 ∷ [])
noise_ends = record {
  to_server = noise_meets refl;
  to_client = noise_meets refl;
  client_open = refl;
  server_open = refl;
  client_room = noise_room 1;
  server_room = noise_room 2;
  server_reads = refl;
  client_reads = refl;
  ask_fits = (omega arith, omega arith);
  answer_fits = (omega arith, omega arith);
}

handshake_accepts_example :
    let served = handle_client_conn (codec "") hash yamux server_config noise_server pools in
    let auth = authenticate (codec "") hash "web" (service "") client_config noise_client in
    (served.outcome ≡ joined 7)
    × Joins "web" (service_type (service "")) 7 pools served.pools
    × (served.conn ≡ message_sent (left noise_server []) (2 ∷ []))
    × BothSent (codec "") hash yamux (meeting_of "" secret_set) noise_ends auth.1 served.conn
    × (auth.0 ≡ ok tt)
handshake_accepts_example =
    handshake_accepts (codec "") hash yamux (meeting_of "" secret_set) noise_ends 7 pools refl
      (Encodes_ok "") pools-HasPool refl

abbrev ws_end : (is_client : Bool) → List ℕ → Stream
ws_end is_client incoming = ws_stream (record {
  raw = end_of incoming [] 1000;
  is_client = is_client;
  read_buf = [];
  read_pos = 0;
  random = λ i. i + 7;
  drawn = 0;
})

ws_room : (is_client : Bool) (b : ℕ) → length (message_bytes (ws_end is_client []) (b ∷ [])) ≤ 1000
unfolding header put_u32 frame mask_key length_bytes xor_from
ws_room true b = omega arith
ws_room false b = omega arith

abbrev ws_client : Stream
ws_client = ws_end true (message_bytes (ws_end false []) (3 ∷ []) ++ [])

abbrev ws_server : Stream
ws_server = ws_end false (message_bytes (ws_end true []) (1 ∷ []) ++ 9 ∷ [])

ws_client_room : length (message_bytes ws_client (1 ∷ [])) ≤ 1000
unfolding mask_key
ws_client_room = ws_room true 1

ws_server_room : length (message_bytes ws_server (3 ∷ [])) ≤ 1000
unfolding mask_key
ws_server_room = ws_room false 3

ws_server_reads : (raw_of ws_server).incoming ≡ message_bytes ws_client (1 ∷ []) ++ 9 ∷ []
unfolding mask_key
ws_server_reads = refl

ws_client_reads : (raw_of ws_client).incoming ≡ message_bytes ws_server (3 ∷ []) ++ []
unfolding mask_key
ws_client_reads = refl

abbrev ws_ends : Ends ws_client ws_server (1 ∷ []) (3 ∷ []) (9 ∷ []) []
ws_ends = record {
  to_server = ws_meets refl;
  to_client = ws_meets refl;
  client_open = refl;
  server_open = refl;
  client_room = ws_client_room;
  server_room = ws_server_room;
  server_reads = ws_server_reads;
  client_reads = ws_client_reads;
  ask_fits = (omega arith, omega arith);
  answer_fits = (omega arith, omega arith);
}

handshake_rejects_example :
    let served = handle_client_conn (codec "wrong") hash yamux server_config ws_server pools in
    let auth = authenticate (codec "wrong") hash "web" (service "wrong") client_config ws_client in
    (served.outcome ≡ bad_token)
    × (served.pools ≡ pools)
    × ((raw_of served.conn).closed ≡ true)
    × BothSent (codec "wrong") hash yamux (meeting_of "wrong" wrong_set) ws_ends auth.1 served.conn
    × (auth.0 ≡ err (wrapf "auth failed" (errorf "bad token")))
handshake_rejects_example =
    handshake_rejects (codec "wrong") hash yamux (meeting_of "wrong" wrong_set) ws_ends pools
      tokens_differ (Encodes_bad "wrong")

abbrev served_web : Served Stream
served_web = handle_client_conn (codec "") hash yamux server_config noise_server pools

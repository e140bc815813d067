-- ===== src/Transport/Stream/Carries.antt =====
-- What a transport sends and gives: whole writes, each with one read at the other end.
use rathole_pro.Prelude.{
  ℕ, ◌+◌, ◌-◌, ◌≤◌, ◌<◌, ◌≡◌, if◌then◌else◌, Bool, false, List, [], ◌++◌, length, take_all, arith,
}
use rathole_pro.Prelude.Exec.{ok}
use rathole_pro.Net.{Conn}
use rathole_pro.Net.Wire.{Sends, Gives, conn_wire}
use rathole_pro.Net.Wire.Full.{full_loop_once}
use rathole_pro.Transport.Noise.{NoiseConn, noise_read}
use rathole_pro.Transport.Noise.Framing.{noise_frame, noise_write_ok, noise_read_frame}
use rathole_pro.Net.Laws.{read_full-append, write_ok}
use rathole_pro.Transport.WsFrame.{
  WsConn, frame, mask_key, read, write_ws, write_frame, next_frame, max_payload,
}
use rathole_pro.Transport.WsFrame.Header.{resume}
use rathole_pro.Transport.WsFrame.RoundTrip.{read_frame-frame}
use rathole_pro.Transport.Stream.{
  ws_read_full, plain, noise_stream, ws_stream, stream_wire, noise_read_full, stream_read_full,
  stream_write,
}

abbrev pub conn_rest : Conn → List ℕ → Conn
conn_rest c rest = record c { incoming = rest }

abbrev pub conn_sent : Conn → List ℕ → Conn
conn_sent c b = record c { outgoing = c.outgoing ++ b; room = c.room - length b }

pub plain-Sends :
    (b : List ℕ) (c : Conn)
    → c.closed ≡ false
    → length b ≤ c.room
    → Sends (plain c) b (plain (conn_sent c b))
unfolding stream_write
plain-Sends b c open_conn room = ground (arith, write_ok b c)

pub plain-Gives :
    (b rest : List ℕ) (c : Conn)
    → c.closed ≡ false
    → c.incoming ≡ b ++ rest
    → Gives (plain c) b (plain (conn_rest c rest))
unfolding stream_read_full
plain-Gives b rest c open_conn arrives = ground (arith, read_full-append b rest c)

abbrev pub noise_rest : NoiseConn → List ℕ → NoiseConn
noise_rest nc rest = record nc { raw = record nc.raw { incoming = rest } }

abbrev pub noise_sent : NoiseConn → List ℕ → NoiseConn
noise_sent nc b = record nc {
  raw = record nc.raw {
    outgoing = nc.raw.outgoing ++ noise_frame nc.enc_key b;
    room = nc.raw.room - 2 - length b;
  };
}

noise_read_full_ok :
    (b rest : List ℕ) (nc : NoiseConn)
    → 0 < length b
    → length b ≤ 65535
    → nc.raw.closed ≡ false
    → nc.raw.incoming ≡ noise_frame nc.dec_key b ++ rest
    → noise_read_full (length b) nc ≡ (ok b, noise_rest nc rest)
unfolding noise_read_full
noise_read_full_ok b rest nc pos small open_conn arrives =
    full_loop_once noise_read (length b + length nc.raw.incoming) b nc (noise_rest nc rest) pos
      (ground (arith, noise_read_frame (length b) b rest nc, take_all (length b) b))

-- A write of at most 65535 bytes is what `io.ReadFull` of its length gives.
pub noise-Gives :
    (b rest : List ℕ) (nc : NoiseConn)
    → 0 < length b
    → length b ≤ 65535
    → nc.raw.closed ≡ false
    → nc.raw.incoming ≡ noise_frame nc.dec_key b ++ rest
    → Gives (noise_stream nc) b (noise_stream (noise_rest nc rest))
unfolding stream_read_full
noise-Gives b rest nc pos small open_conn arrives = ground (arith, noise_read_full_ok b rest nc)

pub noise-Sends :
    (b : List ℕ) (nc : NoiseConn)
    → nc.raw.closed ≡ false
    → 2 + length b ≤ nc.raw.room
    → Sends (noise_stream nc) b (noise_stream (noise_sent nc b))
unfolding stream_write
noise-Sends b nc open_conn room = ground (arith, noise_write_ok b nc)

abbrev pub ws_sent : WsConn → List ℕ → WsConn
ws_sent ws b = record ws {
  raw = record ws.raw {
    outgoing = ws.raw.outgoing ++ frame ws.is_client 0x02 (mask_key ws) b;
    room = ws.raw.room - length (frame ws.is_client 0x02 (mask_key ws) b);
  };
  drawn = if ws.is_client then ws.drawn + 4 else ws.drawn;
}

pub ws-Sends :
    (b : List ℕ) (ws : WsConn)
    → ws.raw.closed ≡ false
    → length (frame ws.is_client 0x02 (mask_key ws) b) ≤ ws.raw.room
    → Sends (ws_stream ws) b (ws_stream (ws_sent ws b))
unfolding stream_write write_ws write_frame
ws-Sends b ws open_conn room =
    ground (arith, write_ok (frame ws.is_client 0x02 (mask_key ws) b) ws.raw)

ws_read_whole :
    (side : Bool) (key b rest : List ℕ) (ws : WsConn)
    → length key ≡ 4
    → length b ≤ max_payload
    → ws.raw.closed ≡ false
    → ws.read_buf ≡ []
    → ws.raw.incoming ≡ frame side 0x02 key b ++ rest
    → read (length b) ws ≡ (ok b, resume ws rest)
unfolding read next_frame
ws_read_whole side key b rest ws k small open_conn none_left arrives =
    ground
      (arith, read_frame-frame (length ws.raw.incoming) side 2 key b rest ws, take_all (length b) b)

-- A frame of the other side, masked or not, is what `io.ReadFull` of its length gives.
pub ws-Gives :
    (side : Bool) (key b rest : List ℕ) (ws : WsConn)
    → 0 < length b
    → length key ≡ 4
    → length b ≤ max_payload
    → ws.raw.closed ≡ false
    → ws.read_buf ≡ []
    → ws.raw.incoming ≡ frame side 0x02 key b ++ rest
    → Gives (ws_stream ws) b (ws_stream (resume ws rest))
unfolding stream_read_full ws_read_full
ws-Gives side key b rest ws pos k small open_conn none_left arrives = ground (
  arith,
  full_loop_once read (length b + length ws.raw.incoming) b ws (resume ws rest) pos
      (ws_read_whole side key b rest ws k small open_conn none_left arrives),
)

-- ===== src/Transport/Stream.antt =====
-- The connections that the transports of go-core/transport make, as Go's `net.Conn`: what
-- `applyServerTransport` and `applyClientTransport` return.
pub mod Carries
pub mod Writes
pub mod Messages
pub mod Rounds
use rathole_pro.Prelude.{ℕ, suc, ◌+◌, List, [], length}
use rathole_pro.Prelude.Exec.{Result, Exec}
use rathole_pro.Net.{Conn, read_full as conn_read_full, write as conn_write, close as conn_close}
use rathole_pro.Net.Wire.{Wire, full_loop}
use rathole_pro.Transport.Noise.{NoiseConn, noise_read, noise_write, noise_close}
use rathole_pro.Transport.WsFrame.{WsConn, read, write_ws, close_ws}

pub data Stream : Type 0 where
  plain : Conn → Stream
  noise_stream : NoiseConn → Stream
  ws_stream : WsConn → Stream

-- A `Read` of a size above 0 gives a byte at least or takes two from the connection below, so
-- these rounds are enough.
unfoldable pub noise_read_full : ℕ → Exec NoiseConn (List ℕ)
noise_read_full n nc = full_loop noise_read (suc (n + length nc.raw.incoming)) n [] nc

unfoldable pub ws_read_full : ℕ → Exec WsConn (List ℕ)
ws_read_full n ws = full_loop read (suc (n + length ws.raw.incoming)) n [] ws

module _ {A S : Type 0} (wrap : S → Stream) where
  abbrev pub on_stream : Exec S A → S → Result A × Stream
  on_stream x s = let r = x s in (r.0, wrap r.1)

unfoldable pub stream_read_full : ℕ → Exec Stream (List ℕ)
stream_read_full n (plain c) = on_stream plain (conn_read_full n) c
stream_read_full n (noise_stream nc) = on_stream noise_stream (noise_read_full n) nc
stream_read_full n (ws_stream ws) = on_stream ws_stream (ws_read_full n) ws

unfoldable pub stream_write : List ℕ → Exec Stream ℕ
stream_write b (plain c) = on_stream plain (conn_write b) c
stream_write b (noise_stream nc) = on_stream noise_stream (noise_write b) nc
stream_write b (ws_stream ws) = on_stream ws_stream (write_ws b) ws

unfoldable pub stream_close : Exec Stream (Unit {0})
stream_close (plain c) = on_stream plain conn_close c
stream_close (noise_stream nc) = on_stream noise_stream noise_close nc
stream_close (ws_stream ws) = on_stream ws_stream close_ws ws

instance abbrev pub stream_wire : Wire Stream
stream_wire = record {
  read_full_by = stream_read_full;
  write_by = stream_write;
  close_by = stream_close;
}

-- The connection at the bottom.
abbrev pub raw_of : Stream → Conn
raw_of (plain c) = c
raw_of (noise_stream nc) = nc.raw
raw_of (ws_stream ws) = ws.raw

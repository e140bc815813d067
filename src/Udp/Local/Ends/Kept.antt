-- ===== src/Udp/Local/Ends/Kept.antt =====
-- What no longer happens once `ClientUDP` has returned.
use rathole_pro.Prelude.{◌≡◌, refl, ◌∙◌, List, [], ◌∷◌, some, arith}
use rathole_pro.Prelude.Exec.{Err}
use rathole_pro.Net.{Conn, read_full}
use rathole_pro.Udp.{read_client_frame}
use rathole_pro.Udp.Local.{local_round}
use rathole_pro.Udp.Local.Ends.{
  LocalServing, LocalEvent, stream_frame, reply, socket_error, local_step, local_serve,
}

read_client_frame_outgoing : (c : Conn) → (read_client_frame c).1.outgoing ≡ c.outgoing
unfolding read_client_frame read_full
read_client_frame_outgoing c = ground (arith)

local_step_returned :
    (e : LocalEvent) (s : LocalServing) (x : Err)
    → s.returned ≡ some x
    → let t = local_step e s in
      (t.returned ≡ some x)
      × (t.forwarder.to_service ≡ s.forwarder.to_service)
      × (t.forwarder.stream.outgoing ≡ s.forwarder.stream.outgoing)
unfolding local_step local_round
local_step_returned stream_frame s x h =
    (ground (arith), ground (arith), ground (arith, read_client_frame_outgoing s.forwarder.stream))
local_step_returned (reply payload) s x h = (ground (arith), ground (arith), ground (arith))
local_step_returned (socket_error e) s x h = (ground (arith), ground (arith), ground (arith))

-- Once `ClientUDP` has returned, whatever comes: the local service is sent nothing more, though
-- frames are still taken off the stream, and nothing is written on the stream.
pub local_serve_returned :
    (es : List LocalEvent) (s : LocalServing) (x : Err)
    → s.returned ≡ some x
    → let t = local_serve es s in
      (t.returned ≡ some x)
      × (t.forwarder.to_service ≡ s.forwarder.to_service)
      × (t.forwarder.stream.outgoing ≡ s.forwarder.stream.outgoing)
unfolding local_serve
local_serve_returned [] s x h = (h, refl, refl)
local_serve_returned (e ∷ es) s x h =
    let (r, a, b) = local_step_returned e s x h in
    let (r', a', b') = local_serve_returned es (local_step e s) x r in (r', a' ∙ a, b' ∙ b)

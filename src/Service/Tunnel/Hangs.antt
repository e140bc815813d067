-- ===== src/Service/Tunnel/Hangs.antt =====
-- A visitor's relays over a stream without half-close: neither returns before a copy has failed.
use rathole_pro.Prelude.{
  ◌≡◌, Bool, true, false, ◌||◌, List, [], ◌∷◌, ◌⊎◌, inl, inr, Bool-cases, arith,
}
use rathole_pro.Relay.{into_a, into_b, move, end_copy, close_write, close_end, relay_step}
use rathole_pro.Service.Tunnel.{
  Tunnel, TunnelEvent, visitor_sends, service_sends, visitor_ends, service_ends, server_copy,
  client_copy, move_piece, finish, fail, carries_up, carries_down, ends_up, ends_down, tunnel_step,
  tunnel,
}

abbrev pub is_failure : TunnelEvent → Bool
is_failure (server_copy c fail) = true
is_failure (client_copy c fail) = true
is_failure _ = false

abbrev pub has_failure : List TunnelEvent → Bool
has_failure [] = false
has_failure (e ∷ es) = is_failure e || has_failure es

-- Each relay still waits for the stream, whose ends are open, and has closed nothing.
abbrev pub Hangs : Tunnel → Type 0
Hangs t =
    (t.server.into_a_done ≡ false)
    × (t.client.into_b_done ≡ false)
    × (t.server.b.eof ≡ false)
    × (t.client.a.eof ≡ false)
    × (t.server.a.closed ≡ false)
    × (t.server.b.closed ≡ false)
    × (t.client.a.closed ≡ false)
    × (t.client.b.closed ≡ false)

step-Hangs :
    (e : TunnelEvent) (t : Tunnel) → is_failure e ≡ false → Hangs t → Hangs (tunnel_step e t)
unfolding tunnel_step relay_step move end_copy close_write close_end
step-Hangs (visitor_sends bytes) t sound h = ground (arith, h)
step-Hangs (service_sends bytes) t sound h = ground (arith, h)
step-Hangs visitor_ends t sound h = ground (arith, h)
step-Hangs service_ends t sound h = ground (arith, h)
step-Hangs (server_copy into_a (move_piece n)) t sound h = ground (arith, h)
step-Hangs (server_copy into_a finish) t sound h = ground (arith, h)
step-Hangs (server_copy into_a fail) t sound h = ground (arith)
step-Hangs (server_copy into_b (move_piece n)) t sound h = ground (arith, h)
step-Hangs (server_copy into_b finish) t sound h = ground (arith, h)
step-Hangs (server_copy into_b fail) t sound h = ground (arith)
step-Hangs (client_copy into_a (move_piece n)) t sound h = ground (arith, h)
step-Hangs (client_copy into_a finish) t sound h = ground (arith, h)
step-Hangs (client_copy into_a fail) t sound h = ground (arith)
step-Hangs (client_copy into_b (move_piece n)) t sound h = ground (arith, h)
step-Hangs (client_copy into_b finish) t sound h = ground (arith, h)
step-Hangs (client_copy into_b fail) t sound h = ground (arith)
step-Hangs (carries_up n) t sound h = ground (arith, h)
step-Hangs (carries_down n) t sound h = ground (arith, h)
step-Hangs ends_up t sound h = ground (arith, h)
step-Hangs ends_down t sound h = ground (arith, h)

pub tunnel-Hangs :
    (es : List TunnelEvent) (t : Tunnel) → Hangs t → (has_failure es ≡ true) ⊎ Hangs (tunnel es t)
unfolding tunnel
tunnel-Hangs [] t h = inr h
tunnel-Hangs (e ∷ es) t h = elim (Bool-cases (is_failure e)) [
  | inl fails ↦ inl (ground (arith, fails))
  | inr sound ↦ elim (tunnel-Hangs es (tunnel_step e t) (step-Hangs e t sound h)) [
    | inl fails ↦ inl (ground (arith, fails, sound))
    | inr hangs ↦ inr hangs
  ]
]

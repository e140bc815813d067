-- ===== src/Server/Pool.antt =====
-- `sessionPool` and `udpPool` of go-core/server/server.go.
-- A yamux session is a number (its pointer); `is_closed` is what `IsClosed` answers during the
-- call. The mutex is left out: an operation of the model is one critical section.
pub mod Rotation
use rathole_pro.Prelude.{
  ℕ, ◌≡◌, Bool, true, false, not, List, [], ◌∷◌, ◌++◌, Option, none, some, ◌==◌, if◌then◌else◌,
}

pub record SessionPool : Type 0 where
  pub sessions : List ℕ

unfoldable pub empty_pool : SessionPool
empty_pool = record { sessions = [] }

unfoldable pub add : SessionPool → ℕ → SessionPool
add p s = record { sessions = p.sessions ++ s ∷ [] }

-- The loop of `pick` over what is left of the queue.
unfoldable pub pick_loop : (ℕ → Bool) → List ℕ → Option ℕ × List ℕ
pick_loop is_closed [] = (none, [])
pick_loop is_closed (s ∷ rest) =
    let more = pick_loop is_closed rest in
    if not (is_closed s) then (some s, rest ++ s ∷ []) else more

unfoldable pub pick : (ℕ → Bool) → SessionPool → Option ℕ × SessionPool
pick is_closed p = let r = pick_loop is_closed p.sessions in (r.0, record { sessions = r.1 })

unfoldable pub remove_loop : ℕ → List ℕ → List ℕ
remove_loop target [] = []
remove_loop target (s ∷ rest) = if s == target then rest else s ∷ remove_loop target rest

unfoldable pub remove : SessionPool → ℕ → SessionPool
remove p target = record { sessions = remove_loop target p.sessions }

-- `udpPool`: the same fields, `add` and `pick`, and no `remove`.
pub record UdpPool : Type 0 where
  pub sessions : List ℕ

unfoldable pub empty_udp_pool : UdpPool
empty_udp_pool = record { sessions = [] }

unfoldable pub udp_add : UdpPool → ℕ → UdpPool
udp_add p s = record { sessions = p.sessions ++ s ∷ [] }

unfoldable pub udp_pick : (ℕ → Bool) → UdpPool → Option ℕ × UdpPool
udp_pick is_closed p = let r = pick_loop is_closed p.sessions in (r.0, record { sessions = r.1 })

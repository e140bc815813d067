-- ===== src/Runs/Pools.antt =====
-- A pool with closed sessions.
use rathole_pro.Prelude.{ℕ, ◌≡◌, Bool, [], ◌∷◌, some, ltb}
use rathole_pro.Prelude.{true, false}
use rathole_pro.Prelude.Exec.{err, eof}
use rathole_pro.Net.{Conn}
use rathole_pro.Server.Auth.{handle_visitor}
use rathole_pro.Server.Auth.Visits.{Serves, handle_visitor-Serves}
use rathole_pro.Server.Pool.{SessionPool}
use rathole_pro.Server.Pool.Rotation.{live, picks, picks_round}

-- Sessions below 3 are closed.
abbrev is_closed : ℕ → Bool
is_closed s = ltb s 3

abbrev pool : SessionPool
pool = record { sessions = 1 ∷ 5 ∷ 2 ∷ 7 ∷ [] }

picks_round_example : picks 2 is_closed pool ≡ some 5 ∷ some 7 ∷ []
unfolding live
picks_round_example = picks_round is_closed pool

abbrev visitor : Conn
visitor = record { incoming = []; outgoing = []; room = 9; closed = false }

handle_visitor-Serves_example :
    Serves is_closed
      (λ s. true)
      (λ s. err eof)
      visitor
      (1 ∷ 5 ∷ 2 ∷ 7 ∷ [])
      (handle_visitor is_closed (λ s. true) (λ s. err eof) visitor pool)
handle_visitor-Serves_example =
    handle_visitor-Serves is_closed (λ s. true) (λ s. err eof) visitor pool

-- ===== src/Server/Auth/Visits.antt =====
-- What `handleVisitor` does with a visitor.
use rathole_pro.Prelude.{
  ℕ, ◌≡◌, Bool, true, false, List, [], ◌∷◌, ◌++◌, All, arith, inl, inr, ◌≢◌, refl, Bool-cases,
}
use rathole_pro.Prelude.Exec.{Err, Result, Result-cases, ok, err}
use rathole_pro.Net.{Conn, close}
use rathole_pro.Server.Pool.{SessionPool, pick_loop, pick, remove, remove_loop}
use rathole_pro.Server.Pool.Rotation.{Picks, found, exhausted, pick_loop-Picks, remove_loop_lem}
use rathole_pro.Server.Auth.{no_client, open_failed, relayed, Visited, handle_visitor}

-- The queue without its first entry of the session.
pub record Without (s : ℕ) (queue left : List ℕ) : Type 0 where
  pub front : List ℕ
  pub back : List ℕ
  pub splits : queue ≡ front ++ s ∷ back
  pub first : All (λ x. x ≢ s) front
  pub remains : left ≡ front ++ back

-- The queue after a stream could not be opened: it loses the session if it is closed by then.
pub data AfterFailure (is_closed : Bool) (s : ℕ) (queue left : List ℕ) : Type 0 where
  leaves : is_closed ≡ true → Without s queue left → AfterFailure is_closed s queue left
  stays : is_closed ≡ false → left ≡ queue → AfterFailure is_closed s queue left

-- The three ends of a visit. A session that is tried is the first live one of the pool, and is at
-- the back of the pool while its stream is opened.
pub data Serves (is_closed closed_later : ℕ → Bool) (open_stream : ℕ → Result ℕ) (visitor : Conn)
    (queue : List ℕ) (v : Visited) : Type 0 where
  turned_away :
      All (λ s. is_closed s ≡ true) queue
      → v ≡ record {
        visit = no_client;
        visitor = record visitor { closed = true };
        pool = record { sessions = [] };
      }
      → Serves is_closed closed_later open_stream visitor queue v
  not_opened :
      (dead : List ℕ) (s : ℕ) (rest left : List ℕ) (e : Err)
      → queue ≡ dead ++ s ∷ rest
      → All (λ x. is_closed x ≡ true) dead
      → is_closed s ≡ false
      → open_stream s ≡ err e
      → v ≡ record {
        visit = open_failed e;
        visitor = record visitor { closed = true };
        pool = record { sessions = left };
      }
      → AfterFailure (closed_later s) s (rest ++ s ∷ []) left
      → Serves is_closed closed_later open_stream visitor queue v
  served :
      (dead : List ℕ) (s : ℕ) (rest : List ℕ) (stream : ℕ)
      → queue ≡ dead ++ s ∷ rest
      → All (λ x. is_closed x ≡ true) dead
      → is_closed s ≡ false
      → open_stream s ≡ ok stream
      → v ≡ record {
        visit = relayed s stream;
        visitor = visitor;
        pool = record { sessions = rest ++ s ∷ [] };
      }
      → Serves is_closed closed_later open_stream visitor queue v

All_middle : {s : ℕ} (rest : List ℕ) → All (λ x. x ≢ s) (rest ++ s ∷ []) → s ≢ s
All_middle [] h = h.0
All_middle (x ∷ rest) h = All_middle rest h.1

-- `remove` on a queue in which the session is the last.
remove_loop-Without :
    (s : ℕ) (rest : List ℕ) → Without s (rest ++ s ∷ []) (remove_loop s (rest ++ s ∷ []))
remove_loop-Without s rest = elim (remove_loop_lem s (rest ++ s ∷ [])) [
  | inl (front, back, split, absent, e) ↦ record {
    front = front;
    back = back;
    splits = split;
    first = absent;
    remains = e;
  }
  | inr (absent, e) ↦ absurd ((All_middle rest absent) refl)
]

module _ (is_closed closed_later : ℕ → Bool) (open_stream : ℕ → Result ℕ) (visitor : Conn) where
  Serves-Picks :
      (pool : SessionPool)
      → Picks is_closed pool.sessions (pick_loop is_closed pool.sessions)
      → Serves is_closed closed_later open_stream visitor pool.sessions
          (handle_visitor is_closed closed_later open_stream visitor pool)
  unfolding handle_visitor pick close
  Serves-Picks pool (exhausted dead_all e) = turned_away dead_all (ground arith)
  Serves-Picks pool (found dead s rest split dead_all alive e) =
      elim (Result-cases (open_stream s)) [
        | inl (stream, up) ↦ served dead s rest stream split dead_all alive up (ground arith)
        | inr (x, down) ↦ elim (Bool-cases (closed_later s)) [
          | inl gone ↦
              not_opened dead s rest (remove_loop s (rest ++ s ∷ [])) x split dead_all alive down
                (unfold remove in ground arith) (leaves gone (remove_loop-Without s rest))
          | inr there ↦
              not_opened dead s rest (rest ++ s ∷ []) x split dead_all alive down (ground arith)
                (stays there refl)
        ]
      ]

  -- A visitor is relayed on the first live session of the pool, which goes to the back, or it is
  -- closed: without a live session, and where that session opens no stream; then the pool
  -- loses its first entry of the session if it is closed by then.
  pub handle_visitor-Serves :
      (pool : SessionPool)
      → Serves is_closed closed_later open_stream visitor pool.sessions
          (handle_visitor is_closed closed_later open_stream visitor pool)
  handle_visitor-Serves pool = Serves-Picks pool (pick_loop-Picks is_closed pool.sessions)

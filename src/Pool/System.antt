-- ===== src/Pool/System.antt =====
-- The pool and all that is under way around it: the borrowed connections and the attempts to
-- connect. Threads interleave as a sequence of critical sections.
use tdxrs.Base.{ℕ, ◌≡◌, Bool, true, false, List, [], ◌∷◌, ◌++◌}
use tdxrs.Pool.{
  PooledConnection, PoolInner, Borrowed, reused, connecting, exhausted, new_single, push, borrow,
  roll_back, return_connection, close_all,
}
use tdxrs.Pool.Key.{Server}

pub record System : Type 0 where
  pub pool : PoolInner
  pub guards : List PooledConnection
  pub attempts : List Server

abbrev pub start : System
start = record { pool = new_single; guards = []; attempts = [] }

-- What a thread that called `borrow` holds after the first critical section.
abbrev pub after_borrow : System → Server → PoolInner × Borrowed → System
after_borrow s server (inner, reused c) = record s { pool = inner; guards = c ∷ s.guards }
after_borrow s server (inner, connecting) = record s {
  pool = inner;
  attempts = server ∷ s.attempts;
}
after_borrow s server (inner, exhausted) = record s { pool = inner }

abbrev pub either : Bool → Bool → Bool
either true b = true
either false b = b

-- One critical section. `pushed` says whether it was `push`, which has no bound.
pub data Step (max_size : ℕ) (s : System) : Bool → System → Type 0 where
  pushes : (c : PooledConnection) → Step max_size s true (record s { pool = push s.pool c })
  borrows :
      (server : Server)
      → Step max_size s false (after_borrow s server (borrow max_size server s.pool))
  connects :
      (front back : List Server) (server : Server) (conn : ℕ)
      → s.attempts ≡ front ++ (server ∷ back)
      → Step max_size s false (record s {
        guards = record { conn = conn; server = server } ∷ s.guards;
        attempts = front ++ back;
      })
  fails :
      (front back : List Server) (server : Server)
      → s.attempts ≡ front ++ (server ∷ back)
      → Step max_size s false (record s { pool = roll_back s.pool; attempts = front ++ back })
  returns :
      (front back : List PooledConnection) (c : PooledConnection) (is_open : Bool)
      → s.guards ≡ front ++ (c ∷ back)
      → Step max_size s false
          (record s { pool = return_connection max_size c is_open s.pool; guards = front ++ back })
  closes : Step max_size s false (record s { pool = close_all s.pool })

-- Any history; the flag says whether `push` was called in it.
pub data Reach (max_size : ℕ) (s : System) : Bool → System → Type 0 where
  here : Reach max_size s false s
  next :
      {t u : System} {before now after : Bool}
      → Reach max_size s before t
      → Step max_size t now u
      → after ≡ either before now
      → Reach max_size s after u

-- ===== src/Pool.antt =====
-- src/net/pool.rs: the pool of TCP connections. Each critical section of the mutex is one function on
-- the guarded state; connecting and the handshake run between two of them, and so do the users of
-- the borrowed connections. A connection is known by a number.
pub mod Key
pub mod System
pub mod Counters
pub mod Servers
use tdxrs.Base.{
  ℕ, ◌+◌, ◌-◌, Bool, true, false, ◌&&◌, List, [], ◌∷◌, ◌++◌, ltb, if◌then◌else◌, length, map,
}
use Key.{Server, same_server}

pub record PooledConnection : Type 0 where
  pub conn : ℕ
  pub server : Server

-- The state under the lock, and what the pool has done to sockets: `closed` has the numbers of the
-- connections that it has called `close` on, in that order.
pub record PoolInner : Type 0 where
  pub idle : List PooledConnection
  pub active : ℕ
  pub total : ℕ
  pub closed : List ℕ

unfoldable pub new_single : PoolInner
new_single = record { idle = []; active = 0; total = 0; closed = [] }

unfoldable pub push : PoolInner → PooledConnection → PoolInner
push inner c = record inner { idle = inner.idle ++ (c ∷ []); total = inner.total + 1 }

-- What the loop at the head of `borrow` leaves of the idle queue: the connections to the server
-- that is asked for, the numbers of those it closes, in order, and the count, each step of which saturates at 0.
pub record Purge : Type 0 where
  pub matching : List PooledConnection
  pub closed : List ℕ
  pub left : ℕ

unfoldable pub purge : Server → List PooledConnection → ℕ → Purge
purge server [] total = record { matching = []; closed = []; left = total }
purge server (c ∷ cs) total =
    let same = same_server c.server server in
    let rest = purge server cs (if same then total else total - 1) in
    if same
    then record rest { matching = c ∷ rest.matching }
    else record rest { closed = c.conn ∷ rest.closed }

-- The first critical section of `borrow` and `try_borrow`: a connection from the queue, leave to
-- connect, or nothing (where `borrow` answers POOL_EXHAUSTED and `try_borrow` answers `None`).
pub data Borrowed : Type 0 where
  reused : PooledConnection → Borrowed
  connecting : Borrowed
  exhausted : Borrowed

unfoldable pub take_idle : ℕ → List PooledConnection → ℕ → ℕ → List ℕ → PoolInner × Borrowed
take_idle max_size (c ∷ cs) active total closed =
    (record { idle = cs; active = active + 1; total = total; closed = closed }, reused c)
take_idle max_size [] active total closed =
    if ltb total max_size
    then (record { idle = []; active = active + 1; total = total + 1; closed = closed }, connecting)
    else (record { idle = []; active = active; total = total; closed = closed }, exhausted)

unfoldable pub borrow : ℕ → Server → PoolInner → PoolInner × Borrowed
unfolding take_idle
borrow max_size server inner =
    let purged = purge server inner.idle inner.total in
    take_idle max_size purged.matching inner.active purged.left (inner.closed ++ purged.closed)

-- The second critical section, where connecting or the handshake failed.
unfoldable pub roll_back : PoolInner → PoolInner
roll_back inner = record inner { active = inner.active - 1; total = inner.total - 1 }

-- `return_connection`, `is_open` being what the connection answers.
unfoldable pub return_connection : ℕ → PooledConnection → Bool → PoolInner → PoolInner
return_connection max_size c is_open inner =
    if is_open && ltb (length inner.idle) max_size
    then record inner { idle = inner.idle ++ (c ∷ []); active = inner.active - 1 }
    else record inner { active = inner.active - 1; total = inner.total - 1 }

-- The loop of `close_all`, one connection at a time.
unfoldable pub close_idle : List PooledConnection → ℕ → ℕ
close_idle [] total = total
close_idle (c ∷ cs) total = close_idle cs (total - 1)

unfoldable pub close_all : PoolInner → PoolInner
close_all inner = record inner {
  idle = [];
  total = close_idle inner.idle inner.total;
  closed = inner.closed ++ map (λ (c : PooledConnection). c.conn) inner.idle;
}

pub record PoolStats : Type 0 where
  pub idle_count : ℕ
  pub active_count : ℕ
  pub total_count : ℕ
  pub max_count : ℕ

unfoldable pub stats : ℕ → PoolInner → PoolStats
stats max_size inner = record {
  idle_count = length inner.idle;
  active_count = inner.active;
  total_count = inner.total;
  max_count = max_size;
}

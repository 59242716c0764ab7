-- ===== src/Tests/Pools.antt =====
-- A pool of one connection: borrowed, and asked for once more.
use tdxrs.Base.{take, drop, ◌++◌, ◌+◌, ◌≡◌, ◌≤◌, refl, false, [], ◌∷◌, length, All}
use tdxrs.Pool.{PoolInner, connecting, exhausted, borrow, roll_back}
use tdxrs.Pool.Key.{Server}
use tdxrs.Pool.System.{System, start, after_borrow, borrows, Reach, here, next}
use tdxrs.Pool.Counters.{
  IsCounted, start-IsCounted, Reach-IsCounted, Reach-bounded, borrow_refusals,
}
use tdxrs.Pool.Servers.{IsTo, handed_out, ours, others, borrow-IsTo}

abbrev quotes_server : Server
quotes_server = record { host = 49 ∷ []; port = 7709 }

abbrev other_server : Server
other_server = record { host = 50 ∷ []; port = 7709 }

abbrev asked : System
asked = after_borrow start quotes_server (borrow 1 quotes_server start.pool)

one_borrow : Reach 1 start false asked
one_borrow = next here (borrows quotes_server) refl

Reach-IsCounted_example : IsCounted asked
Reach-IsCounted_example = Reach-IsCounted 1 start-IsCounted one_borrow

Reach-bounded_example :
    (asked.pool.total ≤ 1)
    × (length asked.pool.idle + length asked.guards + length asked.attempts ≤ 1)
Reach-bounded_example = Reach-bounded 1 one_borrow refl

borrow_refusals_example :
    ((borrow 1 quotes_server start.pool).1 ≡ exhausted
      → 1 ≤ length start.guards + length start.attempts)
    × ((borrow 1 quotes_server start.pool).1 ≡ connecting
        → roll_back (borrow 1 quotes_server start.pool).0 ≡ record {
          idle = [];
          active = start.pool.active;
          total = start.pool.active;
          closed = (borrow 1 quotes_server start.pool).0.closed;
        })
borrow_refusals_example = borrow_refusals 1 quotes_server start start-IsCounted

abbrev mixed : PoolInner
mixed = record {
  idle =
      record { conn = 3; server = other_server } ∷ record { conn = 4; server = quotes_server } ∷ [];
  active = 0;
  total = 2;
  closed = [];
}

borrow-IsTo_example :
    let (inner', r) = borrow 2 quotes_server mixed in
    (handed_out r ≡ take 1 (ours quotes_server mixed.idle))
    × (inner'.idle ≡ drop 1 (ours quotes_server mixed.idle))
    × All (IsTo quotes_server) (ours quotes_server mixed.idle)
    × (inner'.closed ≡ [] ++ others quotes_server mixed.idle)
borrow-IsTo_example = borrow-IsTo 2 quotes_server mixed

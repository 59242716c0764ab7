-- ===== src/Pool/Counters.antt =====
-- The counters of the pool count what there is, in every history.
use tdxrs.Base.{
  ℕ, suc, ◌+◌, ◌-◌, ◌≤◌, ◌≡◌, refl, sym, ap, ◌∙◌, Bool, true, false, List, [], ◌∷◌, ◌++◌, arith,
  length, length-append,
}
use tdxrs.Pool.{
  PooledConnection, PoolInner, Borrowed, reused, connecting, exhausted, new_single, push, purge,
  take_idle, borrow, roll_back, return_connection, close_idle, close_all,
}
use tdxrs.Pool.Key.{Server}
use tdxrs.Pool.System.{
  System, start, after_borrow, either, Step, pushes, borrows, connects, fails, returns, closes,
  Reach, here, next,
}

pub record IsCounted (s : System) : Type 0 where
  pub active_counts : s.pool.active ≡ length s.guards + length s.attempts
  pub total_counts : s.pool.total ≡ length s.pool.idle + s.pool.active

purge_total :
    (server : Server) (cs : List PooledConnection) (total : ℕ)
    → length cs ≤ total
    → (purge server cs total).left + length cs ≡ length (purge server cs total).matching + total
unfolding purge
purge_total server [] total h = omega arith
purge_total server (c ∷ cs) total h =
    ground (arith, purge_total server cs total, purge_total server cs (total - 1))

take_idle-IsCounted :
    (max_size : ℕ) (server : Server) (s : System) (matching : List PooledConnection) (left : ℕ)
    (closed : List ℕ)
    → s.pool.active ≡ length s.guards + length s.attempts
    → left ≡ length matching + s.pool.active
    → IsCounted (after_borrow s server (take_idle max_size matching s.pool.active left closed))
unfolding take_idle
take_idle-IsCounted max_size server s [] left closed a t = ground arith
take_idle-IsCounted max_size server s (c ∷ cs) left closed a t = ground arith

borrow-IsCounted :
    (max_size : ℕ) (server : Server) (s : System)
    → IsCounted s
    → IsCounted (after_borrow s server (borrow max_size server s.pool))
unfolding borrow
borrow-IsCounted max_size server s v =
    take_idle-IsCounted max_size server s (purge server s.pool.idle s.pool.total).matching
      (purge server s.pool.idle s.pool.total).left _ v.active_counts
      (omega (arith, purge_total server s.pool.idle s.pool.total))

close_idle_lem :
    (cs : List PooledConnection) (total : ℕ)
    → length cs ≤ total
    → close_idle cs total ≡ total - length cs
unfolding close_idle
close_idle_lem [] total h = omega arith
close_idle_lem (c ∷ cs) total h = omega (arith, close_idle_lem cs (total - 1) (omega arith))

length-split {ℓ} :
    {A : Type ℓ} (xs front back : List A) (x : A)
    → xs ≡ front ++ (x ∷ back)
    → length xs ≡ suc (length (front ++ back))
length-split xs front back x e =
    omega (arith, ap length e, length-append front (x ∷ back), length-append front back)

Step-IsCounted :
    (max_size : ℕ) {pushed : Bool} {s t : System}
    → Step max_size s pushed t
    → IsCounted s
    → IsCounted t
Step-IsCounted max_size {s = s} (pushes c) v =
    unfold push in
    omega (arith, length-append s.pool.idle (c ∷ []), v.total_counts, v.active_counts)
Step-IsCounted max_size {s = s} (borrows server) v = borrow-IsCounted max_size server s v
Step-IsCounted max_size {s = s} (connects front back server conn e) v =
    omega (arith, length-split s.attempts front back server e, v.active_counts, v.total_counts)
Step-IsCounted max_size {s = s} (fails front back server e) v =
    unfold roll_back in
    omega (arith, length-split s.attempts front back server e, v.active_counts, v.total_counts)
Step-IsCounted max_size {s = s} (returns front back c is_open e) v =
    unfold return_connection in
    ground (arith, length-split s.guards front back c e, length-append s.pool.idle (c ∷ []))
Step-IsCounted max_size {s = s} closes v =
    unfold close_all in
    omega (
      arith,
      close_idle_lem s.pool.idle s.pool.total (omega arith),
      v.active_counts,
      v.total_counts,
    )

-- In every history of the pool, `active` counts the borrowed connections and the attempts to
-- connect, and `total` those and the idle connections.
pub Reach-IsCounted :
    (max_size : ℕ) {s : System} {pushed : Bool} {t : System}
    → IsCounted s
    → Reach max_size s pushed t
    → IsCounted t
Reach-IsCounted max_size v here = v
Reach-IsCounted max_size v (next r st e) = Step-IsCounted max_size st (Reach-IsCounted max_size v r)

purge_le :
    (server : Server) (cs : List PooledConnection) (total : ℕ)
    → (purge server cs total).left ≤ total
unfolding purge
purge_le server [] total = omega arith
purge_le server (c ∷ cs) total =
    ground (arith, purge_le server cs total, purge_le server cs (total - 1))

take_idle-le :
    (max_size : ℕ) (matching : List PooledConnection) (active left : ℕ) (closed : List ℕ)
    → left ≤ max_size
    → (take_idle max_size matching active left closed).0.total ≤ max_size
unfolding take_idle
take_idle-le max_size [] active left closed h = ground arith
take_idle-le max_size (c ∷ cs) active left closed h = h

after_borrow-pool :
    (s : System) (server : Server) (r : PoolInner × Borrowed) → (after_borrow s server r).pool ≡ r.0
after_borrow-pool s server (inner, reused c) = refl
after_borrow-pool s server (inner, connecting) = refl
after_borrow-pool s server (inner, exhausted) = refl

close_idle-le : (cs : List PooledConnection) (total : ℕ) → close_idle cs total ≤ total
unfolding close_idle
close_idle-le [] total = omega arith
close_idle-le (c ∷ cs) total = omega (arith, close_idle-le cs (total - 1))

Step-le :
    (max_size : ℕ) {s : System} {pushed : Bool} {t : System}
    → Step max_size s pushed t
    → pushed ≡ false
    → s.pool.total ≤ max_size
    → t.pool.total ≤ max_size
Step-le max_size (pushes c) e h = cc
Step-le max_size {s = s} (borrows server) e h =
    let purged = purge server s.pool.idle s.pool.total in
    rw (after_borrow-pool s server (borrow max_size server s.pool)) (
      unfold borrow in
      take_idle-le max_size purged.matching s.pool.active purged.left _
        (omega (arith, purge_le server s.pool.idle s.pool.total)))
Step-le max_size (connects front back server conn d) e h = h
Step-le max_size (fails front back server d) e h = unfold roll_back in omega arith
Step-le max_size (returns front back c is_open d) e h = unfold return_connection in ground arith
Step-le max_size {s = s} closes e h =
    unfold close_all in omega (arith, close_idle-le s.pool.idle s.pool.total)

either-false : (a b : Bool) → either a b ≡ false → (a ≡ false) × (b ≡ false)
either-false true b e = cc
either-false false b e = (refl, e)

Reach-le :
    (max_size : ℕ) {s : System} {pushed : Bool} {t : System}
    → s.pool.total ≤ max_size
    → Reach max_size s pushed t
    → pushed ≡ false
    → t.pool.total ≤ max_size
Reach-le max_size h here e = h
Reach-le max_size h (next {before = b} {now = n} r st a) e =
    let (eb, en) = either-false b n (sym a ∙ e) in Step-le max_size st en (Reach-le max_size h r eb)

pub start-IsCounted : IsCounted start
start-IsCounted = unfold new_single in omega arith

-- As long as nothing is pushed, the pool has at most `max_size` connections in all: idle, borrowed
-- and being made.
pub Reach-bounded :
    (max_size : ℕ) {pushed : Bool} {t : System}
    → Reach max_size start pushed t
    → pushed ≡ false
    → (t.pool.total ≤ max_size)
      × (length t.pool.idle + length t.guards + length t.attempts ≤ max_size)
Reach-bounded max_size r e =
    let bound = Reach-le max_size {s = start} (unfold new_single in omega arith) r e in
    let v = Reach-IsCounted max_size start-IsCounted r in
    (bound, omega (arith, v.active_counts, v.total_counts))

-- `borrow` answers that the pool is exhausted only if `max_size` connections are borrowed or being
-- made; and if connecting fails, the counters are as if `borrow` had only emptied the queue.
pub borrow_refusals :
    (max_size : ℕ) (server : Server) (s : System)
    → IsCounted s
    → ((borrow max_size server s.pool).1 ≡ exhausted
        → max_size ≤ length s.guards + length s.attempts)
      × ((borrow max_size server s.pool).1 ≡ connecting
          → roll_back (borrow max_size server s.pool).0 ≡ record {
            idle = [];
            active = s.pool.active;
            total = s.pool.active;
            closed = (borrow max_size server s.pool).0.closed;
          })
unfolding borrow
borrow_refusals max_size server s v =
    refusals (purge server s.pool.idle s.pool.total).matching
      (purge server s.pool.idle s.pool.total).left _
      (omega (arith, purge_total server s.pool.idle s.pool.total))
  where
    refusals :
        (matching : List PooledConnection) (left : ℕ) (closed : List ℕ)
        → left ≡ length matching + s.pool.active
        → ((take_idle max_size matching s.pool.active left closed).1 ≡ exhausted
            → max_size ≤ length s.guards + length s.attempts)
          × ((take_idle max_size matching s.pool.active left closed).1 ≡ connecting
              → roll_back (take_idle max_size matching s.pool.active left closed).0 ≡ record {
                idle = [];
                active = s.pool.active;
                total = s.pool.active;
                closed = (take_idle max_size matching s.pool.active left closed).0.closed;
              })
    refusals [] left closed e = (λ x. ground arith, λ x. unfold roll_back in ground arith)
    refusals (c ∷ cs) left closed e = (λ x. cc, λ x. cc)

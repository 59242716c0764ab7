-- ===== src/Pool/Servers.antt =====
-- What `borrow` does with the idle connections of a pool.

use tdxrs.Base.{
  ℕ, ◌-◌, ◌≡◌, refl, ap, ◌∙◌, List, [], ◌∷◌, ◌++◌, All, Bool-cases, inl, inr, ltb, if◌then◌else◌,
  take, drop,
}
use tdxrs.Pool.{
  PooledConnection, PoolInner, Borrowed, reused, connecting, exhausted, purge, take_idle, borrow,
}
use tdxrs.Pool.Key.{Server, same_server, same_server_iff}

abbrev pub IsTo : Server → PooledConnection → Type 0
IsTo server c = c.server ≡ server

-- The connections to a server, in order, and the numbers of the others.
abbrev pub ours : Server → List PooledConnection → List PooledConnection
ours server [] = []
ours server (c ∷ cs) = if same_server c.server server then c ∷ ours server cs else ours server cs

abbrev pub others : Server → List PooledConnection → List ℕ
others server [] = []
others server (c ∷ cs) =
    if same_server c.server server then others server cs else c.conn ∷ others server cs

-- The connection that is handed out, if one is.
abbrev pub handed_out : Borrowed → List PooledConnection
handed_out (reused c) = c ∷ []
handed_out connecting = []
handed_out exhausted = []

ours-IsTo : (server : Server) (cs : List PooledConnection) → All (IsTo server) (ours server cs)
ours-IsTo server [] = tt
ours-IsTo server (c ∷ cs) = elim (Bool-cases (same_server c.server server)) [
  | inl e ↦ rw e ((same_server_iff c.server server).0 e, ours-IsTo server cs)
  | inr e ↦ rw e (ours-IsTo server cs)
]

purge_lem :
    (server : Server) (cs : List PooledConnection) (total : ℕ)
    → ((purge server cs total).matching ≡ ours server cs)
      × ((purge server cs total).closed ≡ others server cs)
unfolding purge
purge_lem server [] total = (refl, refl)
purge_lem server (c ∷ cs) total = elim (Bool-cases (same_server c.server server)) [
  | inl e ↦
      let (kept, gone) = purge_lem server cs total in
      rw e (ap (λ (l : List PooledConnection). c ∷ l) kept, gone)
  | inr e ↦
      let (kept, gone) = purge_lem server cs (total - 1) in
      rw e (kept, ap (λ (l : List ℕ). c.conn ∷ l) gone)
]

take_idle_lem :
    (max_size : ℕ) (matching : List PooledConnection) (active left : ℕ) (closed : List ℕ)
    → let (inner, r) = take_idle max_size matching active left closed in
      (handed_out r ≡ take 1 matching) × (inner.idle ≡ drop 1 matching) × (inner.closed ≡ closed)
unfolding take_idle
take_idle_lem max_size [] active left closed = elim (Bool-cases (ltb left max_size)) [
  | inl e ↦ rw e (refl, refl, refl)
  | inr e ↦ rw e (refl, refl, refl)
]
take_idle_lem max_size (c ∷ cs) active left closed = (refl, refl, refl)

-- Whatever stands in the queue, `borrow` closes the connections to other servers, each of them and no
-- other, in their order. Of the rest, which are to the server that is asked for, it hands out the
-- first, if there is one, and keeps the others in their order.
pub borrow-IsTo :
    (max_size : ℕ) (server : Server) (inner : PoolInner)
    → let (inner', r) = borrow max_size server inner in
      (handed_out r ≡ take 1 (ours server inner.idle))
      × (inner'.idle ≡ drop 1 (ours server inner.idle))
      × All (IsTo server) (ours server inner.idle)
      × (inner'.closed ≡ inner.closed ++ others server inner.idle)
unfolding borrow
borrow-IsTo max_size server inner =
    let purged = purge server inner.idle inner.total in
    let (kept, gone) = purge_lem server inner.idle inner.total in
    let (given, left, log) =
      take_idle_lem max_size purged.matching inner.active purged.left
        (inner.closed ++ purged.closed) in
    (
      given ∙ ap (take 1) kept,
      left ∙ ap (drop 1) kept,
      ours-IsTo server inner.idle,
      log ∙ ap (λ (l : List ℕ). inner.closed ++ l) gone,
    )

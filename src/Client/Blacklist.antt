-- ===== src/Client/Blacklist.antt =====
-- The blacklist of src/net/client.rs against a set of servers.
use tdxrs.Base.{
  ◌≡◌, refl, ap, Bool, true, false, not, ◌&&◌, ◌||◌, List, [], ◌∷◌, ◌++◌, inl, inr, Bool-cases, All,
  All-append, Pairwise, arith,
}
use tdxrs.Pool.Key.{Server, same_server, same_server_iff}
use tdxrs.Client.{
  Client, has_server, without, is_server_blocked, block_server, unblock_server,
  clear_blocked_servers,
}

-- The calls that change the blacklist.
pub data Change : Type 0 where
  block unblock : Server → Change
  clear : Change

-- A set of servers, and what a call does to it.
abbrev pub ServerSet : Type 0
ServerSet = Server → Bool

abbrev pub change_set : Change → ServerSet → ServerSet
change_set (Change.block x) set y = same_server x y || set y
change_set (Change.unblock x) set y = not (same_server x y) && set y
change_set Change.clear set y = false

abbrev pub change_sets : List Change → ServerSet → ServerSet
change_sets [] set = set
change_sets (e ∷ es) set = change_sets es (change_set e set)

abbrev pub AreDistinct : Server → Server → Type 0
AreDistinct x y = same_server x y ≡ false

has_server-append :
    (y : Server) (xs ys : List Server)
    → has_server y (xs ++ ys) ≡ (has_server y xs || has_server y ys)
unfolding has_server
has_server-append y [] ys = refl
has_server-append y (x ∷ xs) ys = rw (has_server-append y xs ys) (ground arith)

has_server-without :
    (x y : Server) (xs : List Server)
    → has_server y (without x xs) ≡ (not (same_server x y) && has_server y xs)
unfolding has_server without
has_server-without x y [] = ground arith
has_server-without x y (z ∷ zs) = elim (Bool-cases (same_server z x)) [
  | inl e ↦
      let zx = (same_server_iff z x).0 e in rw (e, has_server-without x y zs, zx) (ground arith)
  | inr e ↦ elim (Bool-cases (same_server x y)) [
    | inl e2 ↦
        let apart : same_server z y ≡ false = rw (← (same_server_iff x y).0 e2) e in
        rw (e, has_server, has_server-without x y zs, e2, apart) (ground arith)
    | inr e2 ↦ rw (e, has_server, has_server-without x y zs, e2) (ground arith)
  ]
]

without-All :
    (P : Server → Type 0) (x : Server) (xs : List Server) → All P xs → All P (without x xs)
unfolding without
without-All P x [] h = tt
without-All P x (z ∷ zs) (h, hs) = elim (Bool-cases (same_server z x)) [
  | inl e ↦ rw e (without-All P x zs hs)
  | inr e ↦ rw e (h, without-All P x zs hs)
]

without-Pairwise :
    (x : Server) (xs : List Server) → Pairwise AreDistinct xs → Pairwise AreDistinct (without x xs)
unfolding without
without-Pairwise x [] h = tt
without-Pairwise x (z ∷ zs) (h, hs) = elim (Bool-cases (same_server z x)) [
  | inl e ↦ rw e (without-Pairwise x zs hs)
  | inr e ↦ rw e (without-All (AreDistinct z) x zs h, without-Pairwise x zs hs)
]

-- A server that is not in the list is distinct from all that are.
append-Pairwise :
    (y : Server) (xs : List Server)
    → has_server y xs ≡ false
    → Pairwise AreDistinct xs
    → Pairwise AreDistinct (xs ++ (y ∷ []))
unfolding has_server
append-Pairwise y [] e h = (tt, tt)
append-Pairwise y (x ∷ xs) e (h, hs) =
    let apart : (same_server x y ≡ false) × (has_server y xs ≡ false) = ground (arith, e) in
    (All-append (AreDistinct x) xs (y ∷ []) h (apart.0, tt), append-Pairwise y xs apart.1 hs)

module _ {I : Type 0} where
  abbrev pub change : Change → Client I → Client I
  change (Change.block x) = block_server x
  change (Change.unblock x) = unblock_server x
  change Change.clear = clear_blocked_servers

  abbrev pub changes : List Change → Client I → Client I
  changes [] c = c
  changes (e ∷ es) c = changes es (change e c)

  -- The list stands for the set, and has no server twice.
  pub record Represents (set : ServerSet) (c : Client I) : Type 0 where
    pub same : (y : Server) → is_server_blocked y c ≡ set y
    pub distinct : Pairwise AreDistinct c.blocked_servers

  change-Represents :
      (e : Change) (set : ServerSet) (c : Client I)
      → Represents set c
      → Represents (change_set e set) (change e c)
  unfolding is_server_blocked block_server unblock_server clear_blocked_servers
  change-Represents (Change.block x) set c r = elim (Bool-cases (has_server x c.blocked_servers)) [
    | inl e ↦ record {
      same = λ y. elim (Bool-cases (same_server x y)) [
        | inl e2 ↦
            let same : has_server y c.blocked_servers ≡ true =
              rw (← (same_server_iff x y).0 e2) e in
            rw (block_server, is_server_blocked, e, e2) same
        | inr e2 ↦ rw (block_server, is_server_blocked, e, e2) (r.same y)
      ];
      distinct = rw (block_server, e) r.distinct;
    }
    | inr e ↦ record {
      same = λ y.
          rw (block_server, is_server_blocked, e, has_server-append y c.blocked_servers (x ∷ []))
            (ground (arith, r.same y));
      distinct = rw (block_server, e) (append-Pairwise x c.blocked_servers e r.distinct);
    }
  ]
  change-Represents (Change.unblock x) set c r = record {
    same = λ y.
        rw (has_server-without x y c.blocked_servers)
          (ap (λ b. not (same_server x y) && b) (r.same y));
    distinct = without-Pairwise x c.blocked_servers r.distinct;
  }
  change-Represents Change.clear set c r = record { same = λ y. refl; distinct = tt }

  -- Whatever calls are made, the blacklist stands for the set that the same calls make of the set it
  -- stood for, without repetition.
  pub changes-Represents :
      (es : List Change) (set : ServerSet) (c : Client I)
      → Represents set c
      → Represents (change_sets es set) (changes es c)
  changes-Represents [] set c r = r
  changes-Represents (e ∷ es) set c r =
      changes-Represents es (change_set e set) (change e c) (change-Represents e set c r)

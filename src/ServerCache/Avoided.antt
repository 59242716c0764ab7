-- ===== src/ServerCache/Avoided.antt =====
-- When a server is avoided: src/net/smart_client.rs, the blacklist of failing servers.
use tdxrs.Base.{
  ℕ, suc, ◌+◌, ◌%◌, ◌^◌, ◌≤◌, ◌≡◌, refl, ◌∙◌, Bool, true, false, ◌||◌, List, [], ◌∷◌, ◌++◌, leb,
  Bool-cases, inl, inr, arith, All, All-append,
}
use tdxrs.Text.{Text}
use tdxrs.Text.Equality.{text_eq_refl}
use tdxrs.Pool.Key.{Server, same_server, same_server_iff}
use tdxrs.ServerCache.{
  ServerCache, BlacklistEntry, Reason, with_path, stats_key, stats_of, record_success,
  record_failure, failed_stats, add_to_blacklist, is_blacklisted, has_fresh, is_fresh, retain,
  survives, is_streak,
}
use tdxrs.ServerCache.Streak.{Event, failed, succeeded, after_all, streak, failures_of-streak}

le→leb : (a b : ℕ) → a ≤ b → leb a b ≡ true
le→leb a b h = ground arith

pub has_fresh-append :
    (now : ℕ) (x : Server) (xs ys : List BlacklistEntry)
    → has_fresh now x (xs ++ ys) ≡ (has_fresh now x xs || has_fresh now x ys)
unfolding has_fresh
has_fresh-append now x [] ys = refl
has_fresh-append now x (e ∷ es) ys = rw (has_fresh-append now x es ys) (ground arith)

-- Dropping what is not fresh changes no answer.
has_fresh-retain :
    (now : ℕ) (x : Server) (xs : List BlacklistEntry)
    → has_fresh now x (retain (is_fresh now) xs) ≡ has_fresh now x xs
unfolding has_fresh retain
has_fresh-retain now x [] = refl
has_fresh-retain now x (e ∷ es) = elim (Bool-cases (is_fresh now e)) [
  | inl f ↦ rw (retain, f, has_fresh, has_fresh-retain now x es, f) refl
  | inr f ↦ rw (retain, f, has_fresh-retain now x es) (ground arith)
]

add_to_blacklist-Avoids :
    (now : ℕ) (x : Server) (reason : Reason) (cache : ServerCache)
    → is_blacklisted now x (add_to_blacklist now x reason cache) ≡ true
unfolding add_to_blacklist is_blacklisted is_fresh has_fresh
add_to_blacklist-Avoids now x reason cache =
    let entry : BlacklistEntry = record { server = x; reason = reason; timestamp = now } in
    elim (Bool-cases (has_fresh now x cache.blacklist)) [
      | inl e ↦ rw (add_to_blacklist, is_blacklisted, e) e
      | inr e ↦
          rw (add_to_blacklist, is_blacklisted, e)
            (has_fresh-retain now x (cache.blacklist ++ (entry ∷ []))
              ∙ (has_fresh-append now x cache.blacklist (entry ∷ [])
                  ∙ rw (e, (same_server_iff x x).1 refl) (ground arith)))
    ]

abbrev IsOfStreak : BlacklistEntry → Type 0
IsOfStreak e = is_streak e.reason ≡ true

retain-All :
    (P : BlacklistEntry → Type 0) (keep : BlacklistEntry → Bool) (xs : List BlacklistEntry)
    → All P xs
    → All P (retain keep xs)
unfolding retain
retain-All P keep [] h = tt
retain-All P keep (e ∷ es) (h, hs) = elim (Bool-cases (keep e)) [
  | inl k ↦ rw k (h, retain-All P keep es hs)
  | inr k ↦ rw k (retain-All P keep es hs)
]

add_to_blacklist-All :
    (now : ℕ) (x : Server) (cache : ServerCache)
    → All IsOfStreak cache.blacklist
    → All IsOfStreak (add_to_blacklist now x Reason.connect_fail_streak cache).blacklist
unfolding add_to_blacklist is_streak
add_to_blacklist-All now x cache h =
    let entry : BlacklistEntry = record {
      server = x;
      reason = Reason.connect_fail_streak;
      timestamp = now;
    } in
    elim (Bool-cases (is_blacklisted now x cache)) [
      | inl e ↦ rw (add_to_blacklist, e) h
      | inr e ↦
          rw (add_to_blacklist, e)
            (retain-All IsOfStreak (is_fresh now) (cache.blacklist ++ (entry ∷ []))
              (All-append IsOfStreak cache.blacklist (entry ∷ []) h (refl, tt)))
    ]

-- Failures and successes enter no other reason.
after_all-IsOfStreak : (es : List Event) → All IsOfStreak (after_all es).blacklist
unfolding with_path record_success record_failure add_to_blacklist
after_all-IsOfStreak [] = tt
after_all-IsOfStreak (failed now x ∷ es) =
    elim (Bool-cases (
      leb 3 (failed_stats (stats_of (stats_key x) (after_all es).server_stats)).consecutive_fail)) [
        | inl e ↦ rw (record_failure, e) (add_to_blacklist-All now x _ (after_all-IsOfStreak es))
        | inr e ↦ rw (record_failure, e) (after_all-IsOfStreak es)
      ]
after_all-IsOfStreak (succeeded now x name latency_ms ∷ es) =
    retain-All IsOfStreak (survives x) (after_all es).blacklist (after_all-IsOfStreak es)

has_fresh-survives :
    (later : ℕ) (x : Server) (xs : List BlacklistEntry)
    → All IsOfStreak xs
    → has_fresh later x (retain (survives x) xs) ≡ false
unfolding has_fresh retain survives
has_fresh-survives later x [] h = refl
has_fresh-survives later x (e ∷ es) (h, hs) = elim (Bool-cases (same_server e.server x)) [
  | inl s ↦ rw (retain, survives, s, h) (has_fresh-survives later x es hs)
  | inr s ↦ rw (retain, survives, s, has_fresh, s, has_fresh-survives later x es hs) refl
]

-- Right after a failure, a server that has failed three times or more since it last succeeded (counted
-- as a `u32`) is blacklisted; a server that has just succeeded is blacklisted at no time.
pub avoided_lem :
    (now : ℕ) (x : Server) (es : List Event)
    → (3 ≤ streak x (failed now x ∷ es) % 2 ^ 32
        → is_blacklisted now x (after_all (failed now x ∷ es)) ≡ true)
      × ((name : Text) (latency_ms later : ℕ)
          → is_blacklisted later x (after_all (succeeded now x name latency_ms ∷ es)) ≡ false)
unfolding record_failure record_success is_blacklisted failed_stats
avoided_lem now x es = (
  λ three.
      let old = (after_all es).server_stats in
      let stats = failed_stats (stats_of (stats_key x) old) in
      let counted : ServerCache = record (after_all es) {
        server_stats = (stats_key x, stats) ∷ old;
      } in
      let fails : 3 ≤ suc (streak x es) % 2 ^ 32 = rw (text_eq_refl (stats_key x)) at three in
      let test : leb 3 (((stats_of (stats_key x) old).consecutive_fail + 1) % 2 ^ 32) ≡ true =
        le→leb 3 _ (omega (arith, fails, failures_of-streak x es)) in
      rw (record_failure, test) (add_to_blacklist-Avoids now x Reason.connect_fail_streak counted),
  λ name latency_ms later.
      has_fresh-survives later x (after_all es).blacklist (after_all-IsOfStreak es),
)

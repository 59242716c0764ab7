-- ===== src/ServerCache/Streak.antt =====
-- The blacklist of src/net/smart_client.rs against the history of a server.
use tdxrs.Base.{
  ℕ, suc, ◌+◌, ◌%◌, ◌^◌, ◌≡◌, refl, ap, ◌∙◌, Bool, true, false, List, [], ◌∷◌, if◌then◌else◌, leb,
  Bool-cases, inl, inr, arith,
}
use tdxrs.Text.{Text, text_eq}
use tdxrs.Text.Equality.{text_eq→eq}
use tdxrs.Pool.Key.{Server}
use tdxrs.ServerCache.{
  ServerCache, ServerStats, Reason, with_path, stats_key, stats_of, no_stats, record_success,
  record_failure, succeeded_stats, failed_stats, add_to_blacklist, is_blacklisted,
}

-- What has happened to servers, the latest in front.
pub data Event : Type 0 where
  failed : ℕ → Server → Event
  succeeded : ℕ → Server → Text → ℕ → Event

abbrev pub happen : Event → ServerCache → ServerCache
happen (failed now server) = record_failure now server
happen (succeeded now server name latency_ms) = record_success now server name latency_ms

abbrev pub after_all : List Event → ServerCache
after_all [] = with_path
after_all (e ∷ es) = happen e (after_all es)

abbrev pub same_key : Server → Server → Bool
same_key a b = text_eq (stats_key a) (stats_key b)

-- How often a server has failed since it last succeeded.
abbrev pub streak : Server → List Event → ℕ
streak server [] = 0
streak server (failed now x ∷ es) =
    if same_key server x then suc (streak server es) else streak server es
streak server (succeeded now x name latency_ms ∷ es) =
    if same_key server x then 0 else streak server es

abbrev pub failures_of : Server → ServerCache → ℕ
failures_of server cache = (stats_of (stats_key server) cache.server_stats).consecutive_fail

-- Blacklisting leaves the counters alone.
add_to_blacklist-stats :
    (now : ℕ) (server : Server) (reason : Reason) (cache : ServerCache)
    → (add_to_blacklist now server reason cache).server_stats ≡ cache.server_stats
unfolding add_to_blacklist
add_to_blacklist-stats now server reason cache =
    elim (Bool-cases (is_blacklisted now server cache)) [
      | inl e ↦ rw (add_to_blacklist, e) refl
      | inr e ↦ rw (add_to_blacklist, e) refl
    ]

-- What a failure writes, whether it blacklists or not.
record_failure-stats :
    (now : ℕ) (x : Server) (cache : ServerCache)
    → (record_failure now x cache).server_stats
      ≡ (stats_key x, failed_stats (stats_of (stats_key x) cache.server_stats)) ∷ cache.server_stats
unfolding record_failure
record_failure-stats now x cache =
    let stats = failed_stats (stats_of (stats_key x) cache.server_stats) in
    let counted : ServerCache = record cache {
      server_stats = (stats_key x, stats) ∷ cache.server_stats;
    } in
    elim (Bool-cases (leb 3 stats.consecutive_fail)) [
      | inl e ↦
          rw (record_failure, e) (add_to_blacklist-stats now x Reason.connect_fail_streak counted)
      | inr e ↦ rw (record_failure, e) refl
    ]

stats_first :
    (key k : Text) (stats : ServerStats) (rest : List (Text × ServerStats))
    → text_eq key k ≡ true
    → stats_of key ((k, stats) ∷ rest) ≡ stats
unfolding stats_of
stats_first key k stats rest e = rw e refl

stats_later :
    (key k : Text) (stats : ServerStats) (rest : List (Text × ServerStats))
    → text_eq key k ≡ false
    → stats_of key ((k, stats) ∷ rest) ≡ stats_of key rest
unfolding stats_of
stats_later key k stats rest e = rw e refl

-- The counter of a server is its streak, as a `u32`.
pub failures_of-streak :
    (server : Server) (es : List Event)
    → failures_of server (after_all es) ≡ streak server es % 2 ^ 32
unfolding with_path stats_of no_stats record_success succeeded_stats failed_stats
failures_of-streak server [] = refl
failures_of-streak server (failed now x ∷ es) =
    let old = (after_all es).server_stats in
    let before = failures_of-streak server es in
    let count = λ (st : ServerStats). st.consecutive_fail in
    let written =
      ap (λ (l : List (Text × ServerStats)). count (stats_of (stats_key server) l))
        (record_failure-stats now x (after_all es)) in
    elim (Bool-cases (same_key server x)) [
      | inl e ↦
          let same : stats_key server ≡ stats_key x =
            text_eq→eq (stats_key server) (stats_key x) e in
          let one_more : ((stats_of (stats_key x) old).consecutive_fail + 1) % 2 ^ 32
              ≡ suc (streak server es) % 2 ^ 32 =
            rw (← same) (omega (arith, before)) in
          written
          ∙ (ap count (
                stats_first (stats_key server) (stats_key x)
                  (failed_stats (stats_of (stats_key x) old)) old e)
              ∙ rw e one_more)
      | inr e ↦
          written
          ∙ (ap count (
                stats_later (stats_key server) (stats_key x)
                  (failed_stats (stats_of (stats_key x) old)) old e)
              ∙ rw e before)
    ]
failures_of-streak server (succeeded now x name latency_ms ∷ es) =
    let old = (after_all es).server_stats in
    let stats = succeeded_stats latency_ms (stats_of (stats_key x) old) in
    let count = λ (st : ServerStats). st.consecutive_fail in
    elim (Bool-cases (same_key server x)) [
      | inl e ↦ ap count (stats_first (stats_key server) (stats_key x) stats old e) ∙ rw e refl
      | inr e ↦
          ap count (stats_later (stats_key server) (stats_key x) stats old e)
          ∙ rw e (failures_of-streak server es)
    ]

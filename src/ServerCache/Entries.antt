-- ===== src/ServerCache/Entries.antt =====
-- Which servers a failure leaves off the blacklist of src/net/smart_client.rs.
use tdxrs.Base.{
  ℕ, ◌≤◌, ◌≡◌, refl, false, Bool, List, [], ◌∷◌, ◌++◌, inl, inr, Bool-cases, leb, arith,
}
use tdxrs.Pool.Key.{Server, same_server}
use tdxrs.ServerCache.{
  ServerCache, BlacklistEntry, Reason, has_fresh, is_fresh, is_blacklisted, stats_key, stats_of,
  retain, failed_stats, add_to_blacklist, record_failure,
}
use tdxrs.ServerCache.Avoided.{has_fresh-append}

-- From `now` on, no entry in the blacklist holds the server off: it has none, or its entries have
-- expired.
abbrev pub IsOff : ℕ → Server → ServerCache → Type 0
IsOff now x cache = (later : ℕ) → now ≤ later → is_blacklisted later x cache ≡ false

-- To drop entries lists no server.
retain-IsOff :
    (later : ℕ) (x : Server) (keep : BlacklistEntry → Bool) (es : List BlacklistEntry)
    → has_fresh later x es ≡ false
    → has_fresh later x (retain keep es) ≡ false
unfolding has_fresh retain
retain-IsOff later x keep [] h = refl
retain-IsOff later x keep (e ∷ es) h =
    let behind = retain-IsOff later x keep es (ground (arith, h)) in
    elim (Bool-cases (keep e)) [
      | inl k ↦ rw (retain, k, has_fresh, behind) (ground (arith, h))
      | inr k ↦ rw (retain, k) behind
    ]

add_to_blacklist-IsOff :
    (now then_ : ℕ) (x y : Server) (reason : Reason) (cache : ServerCache)
    → same_server y x ≡ false
    → IsOff now x cache
    → IsOff now x (add_to_blacklist then_ y reason cache)
unfolding add_to_blacklist is_blacklisted
add_to_blacklist-IsOff now then_ x y reason cache other h later after =
    let entry : BlacklistEntry = record { server = y; reason = reason; timestamp = then_ } in
    elim (Bool-cases (is_blacklisted then_ y cache)) [
      | inl e ↦ rw (add_to_blacklist, e) (h later after)
      | inr e ↦
          rw (add_to_blacklist, e)
            (retain-IsOff later x (is_fresh then_) (cache.blacklist ++ (entry ∷ [])) (
              rw
                (
                  has_fresh-append later x cache.blacklist (entry ∷ []),
                  h later after,
                  has_fresh,
                  other,
                )
                refl))
    ]

-- A failure blacklists no other server.
pub record_failure-IsOff :
    (now then_ : ℕ) (x y : Server) (cache : ServerCache)
    → same_server y x ≡ false
    → IsOff now x cache
    → IsOff now x (record_failure then_ y cache)
unfolding record_failure is_blacklisted
record_failure-IsOff now then_ x y cache other h =
    elim (Bool-cases
      (leb 3 (failed_stats (stats_of (stats_key y) cache.server_stats)).consecutive_fail)) [
        | inl e ↦
            rw (record_failure, e)
              (add_to_blacklist-IsOff now then_ x y Reason.connect_fail_streak _ other h)
        | inr e ↦ rw (record_failure, e) h
      ]

-- ===== src/ServerCache.antt =====
-- `ServerCache` of src/net/smart_client.rs: which servers have failed how often, and which are to be
-- avoided for a day. The file that every change is saved to is left out. Times are seconds since
-- 1970.
pub mod Streak
pub mod Avoided
pub mod Entries
use tdxrs.Base.{
  ℕ, ◌+◌, ◌-◌, ◌*◌, ◌/◌, ◌%◌, ◌^◌, Bool, true, false, not, ◌&&◌, ◌||◌, Option, none, some, List, [],
  ◌∷◌, ◌++◌, if◌then◌else◌, ltb, leb, ◌==◌,
}
use tdxrs.Text.{Text, text_eq, decimal}
use tdxrs.Pool.Key.{Server, same_server}

-- Why a server is to be avoided: `connect_fail_streak`, or the answers that it gives.
pub data Reason : Type 0 where
  connect_fail_streak kline_empty parse_error : Reason

unfoldable pub is_streak : Reason → Bool
is_streak Reason.connect_fail_streak = true
is_streak Reason.kline_empty = false
is_streak Reason.parse_error = false

pub record ServerCacheEntry : Type 0 where
  pub server : Server
  pub name : Text
  pub timestamp : ℕ
  pub latency_ms : ℕ

pub record BlacklistEntry : Type 0 where
  pub server : Server
  pub reason : Reason
  pub timestamp : ℕ

pub record ServerStats : Type 0 where
  pub success : ℕ
  pub fail : ℕ
  pub avg_latency : ℕ
  pub consecutive_fail : ℕ

-- The hash map is a list of which the first entry of a key counts.
pub record ServerCache : Type 0 where
  pub last_success : Option ServerCacheEntry
  pub blacklist : List BlacklistEntry
  pub server_stats : List (Text × ServerStats)

-- `format!("{}:{}", ip, port)`.
unfoldable pub stats_key : Server → Text
stats_key server = server.host ++ (58 ∷ decimal server.port)

unfoldable pub with_path : ServerCache
with_path = record { last_success = none; blacklist = []; server_stats = [] }

unfoldable pub no_stats : ServerStats
no_stats = record { success = 0; fail = 0; avg_latency = 0; consecutive_fail = 0 }

-- `entry(key).or_insert(..)`.
unfoldable pub stats_of : Text → List (Text × ServerStats) → ServerStats
unfolding no_stats
stats_of key [] = no_stats
stats_of key ((k, stats) ∷ rest) =
    let later = stats_of key rest in if text_eq key k then stats else later

unfoldable pub clear_last_success : ServerCache → ServerCache
clear_last_success cache = record cache { last_success = none }

-- `now - timestamp < 86400` of `u64`s: where the clock is behind the timestamp, the difference wraps
-- around to a number above.
unfoldable pub is_fresh : ℕ → BlacklistEntry → Bool
is_fresh now e = leb e.timestamp now && ltb (now - e.timestamp) 86400

unfoldable pub has_fresh : ℕ → Server → List BlacklistEntry → Bool
unfolding is_fresh
has_fresh now server [] = false
has_fresh now server (e ∷ es) =
    same_server e.server server && is_fresh now e || has_fresh now server es

unfoldable pub is_blacklisted : ℕ → Server → ServerCache → Bool
unfolding has_fresh
is_blacklisted now server cache = has_fresh now server cache.blacklist

-- `retain`.
unfoldable pub retain : (BlacklistEntry → Bool) → List BlacklistEntry → List BlacklistEntry
retain keep [] = []
retain keep (e ∷ es) = let rest = retain keep es in if keep e then e ∷ rest else rest

unfoldable pub add_to_blacklist : ℕ → Server → Reason → ServerCache → ServerCache
unfolding is_blacklisted retain
add_to_blacklist now server reason cache =
    let entry : BlacklistEntry = record { server = server; reason = reason; timestamp = now } in
    if is_blacklisted now server cache
    then cache
    else record cache { blacklist = retain (is_fresh now) (cache.blacklist ++ (entry ∷ [])) }

-- The counters are `u32`s; that of the successes stays below 2^32.
unfoldable pub succeeded_stats : ℕ → ServerStats → ServerStats
succeeded_stats latency_ms stats =
    let success = stats.success + 1 in
    record stats {
      success = success;
      consecutive_fail = 0;
      avg_latency = (stats.avg_latency * (success - 1) + latency_ms) % 2 ^ 32 / success;
    }

-- Whether a success leaves an entry: only those of a streak of failures go.
unfoldable pub survives : Server → BlacklistEntry → Bool
unfolding is_streak
survives server e = not (same_server e.server server && is_streak e.reason)

unfoldable pub record_success : ℕ → Server → Text → ℕ → ServerCache → ServerCache
unfolding stats_of succeeded_stats retain survives stats_key
record_success now server name latency_ms cache =
    let stats = succeeded_stats latency_ms (stats_of (stats_key server) cache.server_stats) in
    record {
      last_success =
          some (record { server = server; name = name; timestamp = now; latency_ms = latency_ms });
      blacklist = retain (survives server) cache.blacklist;
      server_stats = (stats_key server, stats) ∷ cache.server_stats;
    }

unfoldable pub failed_stats : ServerStats → ServerStats
failed_stats stats = record stats {
  fail = (stats.fail + 1) % 2 ^ 32;
  consecutive_fail = (stats.consecutive_fail + 1) % 2 ^ 32;
}

-- `BLACKLIST_FAIL_STREAK` is 3.
unfoldable pub record_failure : ℕ → Server → ServerCache → ServerCache
unfolding stats_of failed_stats add_to_blacklist stats_key
record_failure now server cache =
    let stats = failed_stats (stats_of (stats_key server) cache.server_stats) in
    let counted = record cache { server_stats = (stats_key server, stats) ∷ cache.server_stats } in
    if leb 3 stats.consecutive_fail
    then add_to_blacklist now server Reason.connect_fail_streak counted
    else counted

unfoldable pub all_blacklisted : ℕ → ServerCache → List Server → Bool
all_blacklisted now cache [] = true
all_blacklisted now cache (server ∷ rest) =
    is_blacklisted now server cache && all_blacklisted now cache rest

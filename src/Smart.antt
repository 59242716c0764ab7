-- ===== src/Smart.antt =====
-- `TdxSmartClient` of src/net/smart_client.rs: a client that keeps a cache of servers, goes through
-- them until one answers, and changes to another when the bars or quotes do not come.
pub mod Rounds
pub mod Available
use tdxrs.Base.{
  ℕ, ◌+◌, ◌-◌, ◌*◌, ◌/◌, ◌%◌, ◌^◌, Bool, true, false, not, ◌&&◌, Option, none, some, List, [], ◌∷◌,
  ◌++◌, if◌then◌else◌, leb,
}
use tdxrs.Errors.{Outcome, ok, err, panic, TdxError}
use tdxrs.Text.{Text}
use tdxrs.Io.{Io, ◌>>=◌, ◌>>◌, return, throw, settle}
use tdxrs.Net.{Sockets, Timeout}
use tdxrs.Pool.Key.{Server}
use tdxrs.ServerCache.{
  ServerCache, ServerCacheEntry, with_path, clear_last_success, is_blacklisted, record_success,
  record_failure, all_blacklisted,
}
use tdxrs.Client.{
  Client, Session, connect_internal, connection_failed, disconnect, without, seconds,
}
use tdxrs.Client.KnownServers.{primary_servers, all_known_servers}

-- `max_retry`, which is always 3, is where it is used.
pub record SmartClient (I W : Type 0) : Type 0 where
  pub inner : Session I W
  pub cache : ServerCache
  pub current_server : Option (Server × Text)
  pub health_checked : Bool

abbrev pub other_servers : Option (Server × Text) → List Server
other_servers none = primary_servers
other_servers (some (current, name)) = without current primary_servers

-- A server of the probe, with its latency in milliseconds.
pub record Probed : Type 0 where
  pub server : Server
  pub name : Text
  pub latency_ms : ℕ

-- `sort_by_key`, which keeps the order of equal latencies.
unfoldable pub insert_probed : Probed → List Probed → List Probed
insert_probed p [] = p ∷ []
insert_probed p (q ∷ qs) =
    let rest = insert_probed p qs in
    if leb p.latency_ms q.latency_ms then p ∷ (q ∷ qs) else q ∷ rest

unfoldable pub sort_probed : List Probed → List Probed
unfolding insert_probed
sort_probed [] = []
sort_probed (p ∷ ps) = insert_probed p (sort_probed ps)

-- `clock` is the time of day in seconds since 1970. The names of the known servers are an argument.
module _ {I W : Type 0} (k : Sockets W) (clock : W → ℕ) (name_of : Server → Text) where
  abbrev pub now_of : Session I W → ℕ
  now_of inner = clock inner.net.world

  abbrev pub change_cache : (ServerCache → ServerCache) → SmartClient I W → SmartClient I W
  change_cache f s = record s { cache = f s.cache }

  -- What is written down about an attempt to connect, of which `inner` is what it leaves.
  unfoldable pub recorded :
      Server
      → Text
      → ℕ
      → SmartClient I W
      → Session I W × Outcome Bool
      → SmartClient I W × Outcome Bool
  recorded server name started s (inner, ok true) =
      let latency_ms = (k.now inner.net.world - started) / 10 ^ 6 % 2 ^ 32 in
      (
        record {
          inner = inner;
          cache = record_success (now_of inner) server name latency_ms s.cache;
          current_server = some (server, name);
          health_checked = false;
        },
        ok true,
      )
  recorded server name started s (inner, ok false) =
      (record s { inner = inner; cache = record_failure (now_of inner) server s.cache }, ok false)
  recorded server name started s (inner, err e) =
      (record s { inner = inner; cache = record_failure (now_of inner) server s.cache }, ok false)
  recorded server name started s (inner, panic) = (record s { inner = inner }, panic)

  unfoldable pub connect_and_record : Server → Text → Option Timeout → Io (SmartClient I W) Bool
  unfolding recorded
  connect_and_record server name timeout s =
      recorded server name (k.now s.inner.net.world) s (connect_internal k server timeout s.inner)

  -- One of the loops over servers: those that are not avoided, until one of them connects.
  unfoldable pub try_candidates : Bool → Option Timeout → List Server → Io (SmartClient I W) Bool
  unfolding connect_and_record
  try_candidates ignore_blacklist timeout [] s = (s, ok false)
  try_candidates ignore_blacklist timeout (x ∷ xs) s =
      let rest = try_candidates ignore_blacklist timeout xs in
      elim (not ignore_blacklist && is_blacklisted (now_of s.inner) x s.cache) [
        | true ↦ rest s
        | false ↦
            settle (λ (found : Bool). elim found [ true ↦ return true | false ↦ rest ]) (λ _. rest)
              (connect_and_record x (name_of x) timeout s)
      ]

  -- `if a() { return Ok(true) }` and on to the next.
  abbrev pub or_next :
      Io (SmartClient I W) Bool
      → Io (SmartClient I W) Bool
      → SmartClient I W
      → SmartClient I W × Outcome Bool
  or_next a b s =
      settle (λ (found : Bool). elim found [ true ↦ return true | false ↦ b ]) (λ _. b) (a s)

  -- The part of `connect_to_any` behind the server of the cache.
  unfoldable pub search_known : Option Timeout → Io (SmartClient I W) Bool
  unfolding try_candidates primary_servers all_known_servers
  search_known timeout s =
      let ignore_blacklist =
        all_blacklisted (now_of s.inner) s.cache (primary_servers ++ all_known_servers) in
      or_next (try_candidates ignore_blacklist timeout primary_servers)
        (or_next (try_candidates ignore_blacklist timeout all_known_servers)
          (throw connection_failed))
        s

  -- The server of the cache, which is forgotten if it does not answer.
  unfoldable pub connect_to_any : Option Timeout → Io (SmartClient I W) Bool
  unfolding connect_and_record search_known
  connect_to_any timeout s = elim s.cache.last_success [
    | none ↦ search_known timeout s
    | some last ↦
        or_next (connect_and_record last.server last.name timeout)
          (λ s'. search_known timeout (change_cache clear_last_success s')) s
  ]

  -- The primary servers but for the current one.
  unfoldable pub try_next_server : Io (SmartClient I W) Bool
  unfolding try_candidates primary_servers
  try_next_server s =
      let others = other_servers s.current_server in
      let ignore_blacklist = all_blacklisted (now_of s.inner) s.cache others in
      or_next (try_candidates ignore_blacklist (some (some (seconds 5))) others)
        (throw connection_failed) s

  unfoldable pub record_current_failure : SmartClient I W → SmartClient I W
  record_current_failure s = elim s.current_server [
    | none ↦ s
    | some current ↦ change_cache (record_failure (now_of s.inner) current.0) s
  ]

  -- The file is not part of the model.
  unfoldable pub clear_cache : SmartClient I W → SmartClient I W
  clear_cache s = record s { cache = with_path }

  -- What the probe of a server writes down: the connection is closed again, and the client's current
  -- server stays.
  unfoldable pub probed :
      Server
      → ℕ
      → SmartClient I W
      → Session I W × Outcome Bool
      → SmartClient I W × Outcome (List Probed)
  probed server started s (inner, ok true) =
      let latency_ms = (k.now inner.net.world - started) / 10 ^ 6 % 2 ^ 32 in
      (
        record s {
          inner = record inner { client = disconnect inner.client };
          cache = record_success (now_of inner) server (name_of server) latency_ms s.cache;
        },
        ok (record { server = server; name = name_of server; latency_ms = latency_ms } ∷ []),
      )
  probed server started s (inner, ok false) =
      (record s { inner = inner; cache = record_failure (now_of inner) server s.cache }, ok [])
  probed server started s (inner, err e) =
      (record s { inner = inner; cache = record_failure (now_of inner) server s.cache }, ok [])
  probed server started s (inner, panic) = (record s { inner = inner }, panic)

  unfoldable pub probe_all : Timeout → List Server → Io (SmartClient I W) (List Probed)
  unfolding probed
  probe_all timeout [] s = (s, ok [])
  probe_all timeout (x ∷ xs) s =
      ((λ s'. probed x (k.now s'.inner.net.world) s' (connect_internal k x (some timeout) s'.inner))
          >>= λ first. probe_all timeout xs >>= λ others. return (first ++ others))
        s

  unfoldable pub probe_and_cache : Timeout → Io (SmartClient I W) (List Probed)
  unfolding probe_all sort_probed
  probe_and_cache timeout =
      probe_all timeout primary_servers >>= λ results. return (sort_probed results)

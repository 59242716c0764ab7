-- ===== src/Client.antt =====
-- `TdxHqClient` of src/net/client.rs: its state, the lists of servers and how it connects. A method
-- is a function on the session, which is the client and the sockets. One method runs at a time, so the
-- locks of the fields are left out.
pub mod KnownServers
pub mod Connecting
pub mod AnyServer
pub mod Blacklist
pub mod Exchange
pub mod Paging
pub mod Packets
pub mod Calls
use tdxrs.Base.{
  ℕ, ◌+◌, ◌*◌, ◌^◌, Bool, true, false, not, ◌&&◌, ◌||◌, Option, none, some, List, [], ◌∷◌, ◌++◌,
  map, if◌then◌else◌,
}
use tdxrs.Errors.{Outcome, ok, err, TdxError}
use tdxrs.Errors.Codes.{with_code}
use tdxrs.Text.{Text}
use tdxrs.Io.{Io, ◌>>=◌, ◌>>◌, return, throw, settle}
use tdxrs.Net.{Sockets, Net, Timeout, open_connection, perform_handshake}
use tdxrs.Pool.Key.{Server, same_server}
use tdxrs.Pool.{PoolInner, new_single, push, close_all}
use tdxrs.Limiter.{RateLimiter}
use tdxrs.Limiter.{new as new_limiter}
use KnownServers.{primary_servers, all_known_servers}

-- An entry of a cache is good before `expires_at`, in nanoseconds.
pub record CacheEntry (A : Type 0) : Type 0 where
  pub value : A
  pub expires_at : ℕ

-- A map by market; the first entry of a market counts.
abbrev pub Cache : Type 0 → Type 0
Cache A = List (ℕ × CacheEntry A)

pub record ListedServer : Type 0 where
  pub name : Text
  pub server : Server

-- `I` is what the list of securities has for each. The thread of the heartbeat is only known to run
-- or not.
pub record Client (I : Type 0) : Type 0 where
  pub pool : PoolInner
  pub pool_timeout : ℕ
  pub connected : Bool
  pub auto_retry : Bool
  pub heartbeat : Bool
  pub last_server : Option Server
  pub count_cache : Cache ℕ
  pub list_cache : Cache (List I)
  pub cache_ttl : ℕ
  pub connect_timeout : Timeout
  pub server_list : List ListedServer
  pub blocked_servers : List Server
  pub rate_limiter : RateLimiter
  pub rate_limiter_daily : RateLimiter
  pub rate_limiter_minute : RateLimiter
  pub fq_context_tier : ℕ

pub record Session (I W : Type 0) : Type 0 where
  pub client : Client I
  pub net : Net W

abbrev pub seconds : ℕ → ℕ
seconds n = n * 10 ^ 9

-- `CONNECT_TIMEOUT`.
abbrev pub default_timeout : Timeout
default_timeout = some (seconds 5)

abbrev pub unwrap_or {ℓ} : {A : Type ℓ} → A → Option A → A
unwrap_or d none = d
unwrap_or d (some a) = a

-- `is_server_blocked` looks a server up like this.
unfoldable pub has_server : Server → List Server → Bool
has_server server [] = false
has_server server (x ∷ xs) = same_server x server || has_server server xs

-- `retain`.
unfoldable pub without : Server → List Server → List Server
without server [] = []
without server (x ∷ xs) =
    let rest = without server xs in if same_server x server then rest else x ∷ rest

module _ {I : Type 0} where
  unfoldable pub new : Client I
  new = record {
    pool = new_single;
    pool_timeout = seconds 5;
    connected = false;
    auto_retry = true;
    heartbeat = false;
    last_server = none;
    count_cache = [];
    list_cache = [];
    cache_ttl = seconds 30;
    connect_timeout = default_timeout;
    server_list = [];
    blocked_servers = [];
    rate_limiter = new_limiter 20;
    rate_limiter_daily = new_limiter 67;
    rate_limiter_minute = new_limiter 100;
    fq_context_tier = 1;
  }

  unfoldable pub set_servers : List ListedServer → Client I → Client I
  set_servers servers c = record c { server_list = servers }

  unfoldable pub add_server : Text → Server → Client I → Client I
  add_server name server c = record c {
    server_list = record { name = name; server = server } ∷ c.server_list;
  }

  unfoldable pub is_server_blocked : Server → Client I → Bool
  unfolding has_server
  is_server_blocked server c = has_server server c.blocked_servers

  unfoldable pub block_server : Server → Client I → Client I
  unfolding has_server
  block_server server c =
      if has_server server c.blocked_servers
      then c
      else record c { blocked_servers = c.blocked_servers ++ (server ∷ []) }

  unfoldable pub unblock_server : Server → Client I → Client I
  unfolding without
  unblock_server server c = record c { blocked_servers = without server c.blocked_servers }

  unfoldable pub clear_blocked_servers : Client I → Client I
  clear_blocked_servers c = record c { blocked_servers = [] }

  unfoldable pub set_auto_retry : Bool → Client I → Client I
  set_auto_retry enabled c = record c { auto_retry = enabled }

  unfoldable pub set_cache_ttl : ℕ → Client I → Client I
  set_cache_ttl ttl_secs c = record c { cache_ttl = seconds ttl_secs }

  -- The pool takes over only a timeout that is finite and above 0.
  unfoldable pub set_connect_timeout : Timeout → Client I → Client I
  set_connect_timeout none c = record c { connect_timeout = none }
  set_connect_timeout (some t) c = record c { connect_timeout = some t; pool_timeout = t }

  -- `disconnect`, which stops the heartbeat first.
  unfoldable pub disconnect : Client I → Client I
  disconnect c = record c { heartbeat = false; pool = close_all c.pool; connected = false }

  -- The state that `connect_internal` leaves after the handshake: one connection, no cache.
  unfoldable pub adopt : ℕ → Server → Client I → Client I
  adopt conn server c = record c {
    pool = push (close_all c.pool) (record { conn = conn; server = server });
    connected = true;
    heartbeat = true;
    last_server = some server;
    count_cache = [];
    list_cache = [];
  }

  -- All the servers that `connect_to_any` goes through, in its order.
  abbrev pub last_server_of : Client I → List Server
  last_server_of c = elim c.last_server [ none ↦ [] | some server ↦ server ∷ [] ]

  abbrev pub user_servers : Client I → List Server
  user_servers c = map (λ (l : ListedServer). l.server) c.server_list

abbrev pub connection_failed : TdxError
connection_failed = with_code 2001

-- Connecting and the handshake.
abbrev pub dial : {W : Type 0} → Sockets W → Server → Timeout → Io (Net W) ℕ
dial k server timeout = do
  conn ← open_connection k server timeout
  perform_handshake k conn
  return conn

module _ {I W : Type 0} where
  -- The session of a client, whatever the network has seen.
  abbrev pub session : Client I → Net W → Session I W
  session c n = record { client = c; net = n }

  -- A call of the sockets' side.
  abbrev pub on_net : {A : Type 0} → Io (Net W) A → Io (Session I W) A
  on_net m s = let (n, r) = m s.net in (record s { net = n }, r)

  abbrev pub update : (Client I → Client I) → Io (Session I W) (Unit {0})
  update f s = (record s { client = f s.client }, ok tt)

  -- `if a() { return Ok(true) }` and on to the next loop.
  abbrev pub or_else : Io (Session I W) Bool → Io (Session I W) Bool → Io (Session I W) Bool
  or_else a b = a >>= λ (found : Bool). elim found [ true ↦ return true | false ↦ b ]

module _ {I W : Type 0} (k : Sockets W) where
  -- With `start_heartbeat`, as every caller wants it.
  unfoldable pub connect_internal : Server → Option Timeout → Io (Session I W) Bool
  connect_internal server timeout s =
      (do
        conn ← on_net (dial k server (unwrap_or s.client.connect_timeout timeout))
        update (adopt conn server)
        return true)
        s

  abbrev pub connect : Server → Option Timeout → Io (Session I W) Bool
  connect = connect_internal

  -- One of the loops: the servers that are not skipped, until one of them connects.
  unfoldable pub try_servers :
      (Server → Client I → Bool) → Option Timeout → List Server → Io (Session I W) Bool
  try_servers skip timeout [] s = (s, ok false)
  try_servers skip timeout (x ∷ xs) s = elim (skip x s.client) [
    | true ↦ try_servers skip timeout xs s
    | false ↦
        settle (λ _. return true) (λ _. try_servers skip timeout xs) (connect_internal x timeout s)
  ]

  -- The part of `connect_to_any` behind its first test.
  unfoldable pub search_servers : Option Timeout → Io (Session I W) Bool
  unfolding primary_servers all_known_servers
  search_servers timeout s =
      let pass = try_servers is_server_blocked timeout in
      or_else (pass (last_server_of s.client))
        (or_else (λ s'. pass (user_servers s'.client) s')
          (or_else (pass primary_servers)
            (or_else (pass all_known_servers) (throw connection_failed))))
        s

  unfoldable pub connect_to_any : Option Timeout → Io (Session I W) Bool
  unfolding search_servers
  connect_to_any timeout s = if s.client.connected then (s, ok true) else search_servers timeout s

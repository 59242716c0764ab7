-- ===== src/Client/Exchange.antt =====
-- A request of src/net/client.rs: the limiter, the connection that it borrows, the exchange, the
-- retries and the change of the server.
pub mod Errors
pub mod Steady
use tdxrs.Base.{
  ℕ, ◌+◌, ◌*◌, ◌^◌, Bool, true, false, not, ◌&&◌, ◌||◌, Option, none, some, List, [], ◌∷◌,
  if◌then◌else◌, ltb, ◌==◌, length,
}
use tdxrs.Errors.{Outcome, ok, err, panic, TdxError}
use tdxrs.Errors.Codes.{with_code}
use tdxrs.Bytes.{Bytes}
use tdxrs.Io.{Io, ◌>>=◌, ◌>>◌, return, throw, pure, settle}
use tdxrs.Net.{Sockets, Net, send, read_response_raw, decompress_zlib_checked, is_open}
use tdxrs.Pool.Key.{Server, same_server}
use tdxrs.Pool.{
  PoolInner, PooledConnection, Borrowed, reused, connecting, exhausted, borrow, roll_back,
  return_connection,
}
use tdxrs.Limiter.{RateLimiter, sleep_time, wait}
use tdxrs.Client.{
  last_server_of, Client, Session, session, on_net, update, dial, connect_internal, try_servers,
  or_else, user_servers, is_server_blocked, default_timeout, unwrap_or,
}
use tdxrs.Client.KnownServers.{primary_servers, all_known_servers}

-- Which of the three limiters a request waits for.
pub data Pace : Type 0 where
  default daily minute : Pace

module _ {I : Type 0} where
  unfoldable pub limiter_of : Pace → Client I → RateLimiter
  limiter_of Pace.default c = c.rate_limiter
  limiter_of Pace.daily c = c.rate_limiter_daily
  limiter_of Pace.minute c = c.rate_limiter_minute

  unfoldable pub set_limiter : Pace → RateLimiter → Client I → Client I
  set_limiter Pace.default l c = record c { rate_limiter = l }
  set_limiter Pace.daily l c = record c { rate_limiter_daily = l }
  set_limiter Pace.minute l c = record c { rate_limiter_minute = l }

  -- Whether a server is the one that failed; the blacklist is not asked.
  abbrev pub is_failed : Option Server → Server → Client I → Bool
  is_failed none x c = false
  is_failed (some server) x c = same_server x server

  -- Neither the current server nor one of the blacklist.
  abbrev pub is_unfit : Option Server → Server → Client I → Bool
  is_unfit current x c = is_failed current x c || is_server_blocked x c

  -- `last_server`, or else the first of `PRIMARY_SERVERS`.
  unfoldable pub current_server : Client I → Server
  unfolding primary_servers
  current_server c = elim c.last_server [
    | some server ↦ server
    | none ↦ elim primary_servers [ [] ↦ record { host = []; port = 0 } | x ∷ _ ↦ x ]
  ]

abbrev pub pool_exhausted : TdxError
pool_exhausted = with_code 2006

abbrev pub retry_exhausted_error : TdxError
retry_exhausted_error = with_code 2005

abbrev pub empty_response : TdxError
empty_response = with_code 2003

-- `max_size` of the pool, `DEFAULT_POOL_SIZE`.
abbrev pub pool_size : ℕ
pool_size = 5

unfoldable pub is_retryable_error : TdxError → Bool
is_retryable_error TdxError.connection = true
is_retryable_error TdxError.disconnected = true
is_retryable_error TdxError.io = true
is_retryable_error _ = false

-- `RETRY_INTERVALS`, in nanoseconds.
abbrev pub retry_intervals : List ℕ
retry_intervals = 100 * 10 ^ 6 ∷ 500 * 10 ^ 6 ∷ 1000 * 10 ^ 6 ∷ 2000 * 10 ^ 6 ∷ []

module _ {I W : Type 0} where
  abbrev pub set_pool : PoolInner → Session I W → Session I W
  set_pool pool s = record s { client = record s.client { pool = pool } }

  -- `ConnectionPool::borrow`, with the handshake as its callback: what the first critical section
  -- found, and what connecting came to.
  unfoldable pub connected_or_not :
      Server → PoolInner → Net W × Outcome ℕ → Io (Session I W) PooledConnection
  connected_or_not server pool (n, ok conn) s =
      (set_pool pool (record s { net = n }), ok (record { conn = conn; server = server }))
  connected_or_not server pool (n, err e) s =
      (set_pool (roll_back pool) (record s { net = n }), err e)
  connected_or_not server pool (n, panic) s = (set_pool pool (record s { net = n }), panic)

-- The request and its response on one connection.
unfoldable pub exchange : {W : Type 0} → Sockets W → Bytes → ℕ → Io (Net W) Bytes
exchange k packet conn = do
  send k conn packet
  (header, body) ← read_response_raw k conn
  if length body == 0
      then throw empty_response
      else if header.zip_size == header.unzip_size
      then return body
      else pure (decompress_zlib_checked k body header.unzip_size)

module _ {I W : Type 0} (k : Sockets W) where
  abbrev pub sleep_for : ℕ → Session I W → Session I W
  sleep_for t s = record s { net = record s.net { world = k.sleep t s.net.world } }

  -- `limiter.wait()`.
  unfoldable pub wait_for : Pace → Session I W → Session I W
  unfolding limiter_of set_limiter
  wait_for pace s =
      let limiter = limiter_of pace s.client in
      let t = sleep_time limiter (k.now s.net.world) in
      let slept = if limiter.enabled && ltb 0 t then sleep_for t s else s in
      record slept { client = set_limiter pace (wait limiter (k.now slept.net.world)) slept.client }

  unfoldable pub obtain : Server → PoolInner × Borrowed → Io (Session I W) PooledConnection
  unfolding connected_or_not
  obtain server (pool, reused c) s = (set_pool pool s, ok c)
  obtain server (pool, exhausted) s = (set_pool pool s, err pool_exhausted)
  obtain server (pool, connecting) s =
      connected_or_not server pool (dial k server (some s.client.pool_timeout) s.net) s

  unfoldable pub borrow_connection : Server → Io (Session I W) PooledConnection
  unfolding obtain
  borrow_connection server s = obtain server (borrow pool_size server s.client.pool) s

  -- The guard gives the connection back however the exchange ends.
  unfoldable pub give_back : PooledConnection → Session I W → Session I W
  give_back c s = set_pool (return_connection pool_size c (is_open k c.conn s.net) s.client.pool) s

  unfoldable pub try_send_and_recv : Bytes → Io (Session I W) Bytes
  unfolding current_server give_back
  try_send_and_recv packet s =
      (borrow_connection (current_server s.client) >>= λ c s'.
      let (n, r) = exchange k packet c.conn s'.net in (give_back c (record s' { net = n }), r))
        s

  -- `reconnect_if_needed`: first the last server, then the others, with no answer to the caller.
  unfoldable pub reconnect_if_needed : Io (Session I W) Bool
  unfolding primary_servers all_known_servers
  reconnect_if_needed s =
      let last = s.client.last_server in
      let pass = try_servers k (is_failed last) (some default_timeout) in
      if s.client.connected
      then (s, ok true)
      else or_else (try_servers k (λ _ _. false) (some default_timeout) (last_server_of s.client))
          (or_else (λ s'. pass (user_servers s'.client) s')
            (or_else (pass primary_servers) (pass all_known_servers)))
          s

  unfoldable pub reconnect_to_another_server : Io (Session I W) Bool
  unfolding primary_servers
  reconnect_to_another_server s =
      try_servers k (is_unfit s.client.last_server) (some default_timeout) primary_servers s

  -- The retries: sleep, reconnect, try.
  unfoldable pub retry_loop : List ℕ → Bytes → Io (Session I W) Bytes
  retry_loop [] packet s = (s, err retry_exhausted_error)
  retry_loop (t ∷ ts) packet s =
      (reconnect_if_needed >>= λ _ s'.
      settle return (λ _. retry_loop ts packet) (try_send_and_recv packet s'))
        (sleep_for t s)

  -- What follows a first failure.
  unfoldable pub retry_or_fail : Bytes → TdxError → Io (Session I W) Bytes
  retry_or_fail packet e s =
      if s.client.auto_retry && is_retryable_error e
      then retry_loop retry_intervals packet s
      else (s, err e)

  unfoldable pub send_and_recv_limited : Pace → Bytes → Io (Session I W) Bytes
  send_and_recv_limited pace packet s =
      settle return (retry_or_fail packet) (try_send_and_recv packet (wait_for pace s))

  -- `send_and_recv`, which `send_raw_and_recv` is too.
  abbrev pub send_and_recv : Bytes → Io (Session I W) Bytes
  send_and_recv packet = send_and_recv_limited Pace.default packet

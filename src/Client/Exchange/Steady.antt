-- ===== src/Client/Exchange/Steady.antt =====
-- What a request leaves alone.
use tdxrs.Base.{
  ℕ, ◌≡◌, refl, ◌∙◌, ap, true, some, ◌&&◌, List, [], ◌∷◌, Bool-cases, if_true, inl, inr, ltb,
}
use tdxrs.Errors.{TdxError, Outcome, ok, err, panic}
use tdxrs.Bytes.{Bytes}
use tdxrs.Io.{Io, after, settle, return}
use tdxrs.Net.{Sockets, Net}
use tdxrs.Pool.Key.{Server}
use tdxrs.Pool.{
  PoolInner, PooledConnection, Borrowed, reused, connecting, exhausted, new_single, borrow,
}
use tdxrs.Limiter.{RateLimiter, sleep_time}
use tdxrs.Limiter.{new as new_limiter}
use tdxrs.Client.{Client, Session, dial}
use tdxrs.Client.Exchange.{
  Pace, limiter_of, set_limiter, current_server, wait_for, connected_or_not, obtain,
  borrow_connection, give_back, try_send_and_recv, reconnect_if_needed, retry_loop, retry_intervals,
  send_and_recv_limited, retry_or_fail, is_retryable_error, sleep_for, set_pool, exchange,
  pool_size,
}

-- A client without its pool and its limiters: the connection, the servers, the caches, the settings.
abbrev pub settings : {I : Type 0} → Client I → Client I
settings c = record c {
  pool = new_single;
  rate_limiter = new_limiter 0;
  rate_limiter_daily = new_limiter 0;
  rate_limiter_minute = new_limiter 0;
}

set_limiter-Keeps :
    {I : Type 0} (pace : Pace) (l : RateLimiter) (c : Client I)
    → settings (set_limiter pace l c) ≡ settings c
unfolding set_limiter
set_limiter-Keeps Pace.default l c = refl
set_limiter-Keeps Pace.daily l c = refl
set_limiter-Keeps Pace.minute l c = refl

module _ {I W : Type 0} where
  -- The call left the settings of `c` as they are.
  abbrev pub Keeps : {A : Type 0} → Client I → Session I W × A → Type 0
  Keeps c r = settings r.0.client ≡ settings c

  set_pool-Keeps :
      {A : Type 0} (pool : PoolInner) (s : Session I W) (a : A)
      → Keeps s.client (set_pool pool s, a)
  set_pool-Keeps pool s a = refl

  give_back-Keeps :
      (k : Sockets W) (c : PooledConnection) (s : Session I W)
      → settings (give_back k c s).client ≡ settings s.client
  unfolding give_back
  give_back-Keeps k c s = refl

module _ {I W : Type 0} (k : Sockets W) where
  pub wait_for-Keeps :
      (pace : Pace) (s : Session I W) → settings (wait_for k pace s).client ≡ settings s.client
  unfolding wait_for
  wait_for-Keeps pace s =
      let limiter = limiter_of pace s.client in
      let t = sleep_time limiter (k.now s.net.world) in
      elim (Bool-cases (limiter.enabled && ltb 0 t)) [
        | inl e ↦ rw (wait_for, e) (set_limiter-Keeps pace _ s.client)
        | inr e ↦ rw (wait_for, e) (set_limiter-Keeps pace _ s.client)
      ]

  connected_or_not-Keeps :
      (server : Server) (pool : PoolInner) (d : Net W × Outcome ℕ) (s : Session I W)
      → Keeps s.client (connected_or_not server pool d s)
  unfolding connected_or_not
  connected_or_not-Keeps server pool (n, ok conn) s = refl
  connected_or_not-Keeps server pool (n, err e) s = refl
  connected_or_not-Keeps server pool (n, panic) s = refl

  obtain-Keeps :
      (server : Server) (b : PoolInner × Borrowed) (s : Session I W)
      → Keeps s.client (obtain k server b s)
  unfolding obtain
  obtain-Keeps server (pool, reused c) s = refl
  obtain-Keeps server (pool, exhausted) s = refl
  obtain-Keeps server (pool, connecting) s =
      connected_or_not-Keeps server pool (dial k server (some s.client.pool_timeout) s.net) s

  after-Keeps :
      {A B : Type 0} (c : Client I) (s : Session I W) (r : Outcome A) (f : A → Io (Session I W) B)
      → settings s.client ≡ settings c
      → ((a : A) (s' : Session I W) → settings s'.client ≡ settings c → Keeps c (f a s'))
      → Keeps c (after s r f)
  after-Keeps c s (ok a) f h step = step a s h
  after-Keeps c s (err e) f h step = h
  after-Keeps c s panic f h step = h

  settle-Keeps :
      {A B : Type 0} (c : Client I) (r : Session I W × Outcome A) (f : A → Io (Session I W) B)
      (g : TdxError → Io (Session I W) B)
      → Keeps c r
      → ((a : A) (s' : Session I W) → settings s'.client ≡ settings c → Keeps c (f a s'))
      → ((e : TdxError) (s' : Session I W) → settings s'.client ≡ settings c → Keeps c (g e s'))
      → Keeps c (settle f g r)
  settle-Keeps c (s, ok a) f g h step _ = step a s h
  settle-Keeps c (s, err e) f g h _ step = step e s h
  settle-Keeps c (s, panic) f g h _ _ = h

  pub try_send_and_recv-Keeps :
      (packet : Bytes) (s : Session I W) → Keeps s.client (try_send_and_recv k packet s)
  unfolding try_send_and_recv borrow_connection
  try_send_and_recv-Keeps packet s =
      let server = current_server s.client in
      let found = obtain k server (borrow pool_size server s.client.pool) s in
      after-Keeps s.client found.0 found.1 _
        (obtain-Keeps server (borrow pool_size server s.client.pool) s)
        (λ c s' h.
          let n = (exchange k packet c.conn s'.net).0 in
          give_back-Keeps k c (record s' { net = n }) ∙ h)

  -- The retries of a client whose settings are those of `c`, which is connected.
  retry_loop-Keeps :
      (c : Client I) (ts : List ℕ) (packet : Bytes) (s : Session I W)
      → c.connected ≡ true
      → settings s.client ≡ settings c
      → Keeps c (retry_loop k ts packet s)
  unfolding retry_loop reconnect_if_needed
  retry_loop-Keeps c [] packet s on h = h
  retry_loop-Keeps c (t ∷ ts) packet s on h =
      let s1 = sleep_for k t s in
      let on1 : s.client.connected ≡ true = ap (λ (d : Client I). d.connected) h ∙ on in
      let stay : reconnect_if_needed k s1 ≡ (s1, ok true) =
        if_true s.client.connected (s1, ok true) _ on1 in
      rw (retry_loop, stay)
        (settle-Keeps c (try_send_and_recv k packet s1) return (λ _. retry_loop k ts packet)
          (try_send_and_recv-Keeps packet s1 ∙ h) (λ a s' e. e)
          (λ e s' h'. retry_loop-Keeps c ts packet s' on h'))

  -- A request on a connected client, with all its retries, changes nothing but the pool and the limiter
  -- it waits for: no retry goes to another server, and no failure marks the client as disconnected.
  pub send_and_recv_limited-Keeps :
      (pace : Pace) (packet : Bytes) (s : Session I W)
      → s.client.connected ≡ true
      → Keeps s.client (send_and_recv_limited k pace packet s)
  unfolding send_and_recv_limited retry_or_fail
  send_and_recv_limited-Keeps pace packet s on =
      let s1 = wait_for k pace s in
      settle-Keeps s.client (try_send_and_recv k packet s1) return (retry_or_fail k packet)
        (try_send_and_recv-Keeps packet s1 ∙ wait_for-Keeps pace s) (λ a s' e. e)
        (λ e s' h. elim (Bool-cases (s'.client.auto_retry && is_retryable_error e)) [
          | inl e1 ↦
              rw (retry_or_fail, e1) (retry_loop-Keeps s.client retry_intervals packet s' on h)
          | inr e1 ↦ rw (retry_or_fail, e1) h
        ])

-- ===== src/Client/Exchange/Errors.antt =====
-- How a request can fail.
use tdxrs.Base.{
  ℕ, ◌≡◌, refl, sym, ◌∙◌, ap, ◌⊎◌, inl, inr, Bool, true, false, ◌&&◌, some, List, [], ◌∷◌,
  Bool-cases, if◌then◌else◌, ◌==◌, length,
}
use tdxrs.Errors.{TdxError, Outcome, ok, err, panic, Sound}
use tdxrs.Bytes.{Bytes}
use tdxrs.Io.{Io, settle, return}
use tdxrs.Net.{Sockets, Net, send, read_response_raw, decompress_zlib_checked}
use tdxrs.Net.Response.{
  Sound-mono, bind-Sound, after-Sound, read_response_raw_lem, decompress_zlib_checked_lem,
}
use tdxrs.Net.Total.{Any, send-Sound}
use tdxrs.Pool.Key.{Server}
use tdxrs.Pool.{PoolInner, Borrowed, reused, connecting, exhausted, borrow}
use tdxrs.Client.{
  Client, Session, dial, try_servers, or_else, last_server_of, user_servers, default_timeout,
}
use tdxrs.Client.KnownServers.{primary_servers, all_known_servers}
use tdxrs.Client.Connecting.{dial-Sound, try_servers-Searches}
use tdxrs.Client.Exchange.{
  Pace, current_server, wait_for, connected_or_not, obtain, borrow_connection, try_send_and_recv,
  reconnect_if_needed, retry_loop, retry_intervals, retry_or_fail, send_and_recv_limited,
  is_retryable_error, sleep_for, exchange, pool_size, is_failed, retry_exhausted_error,
}
use tdxrs.Client.Exchange.Steady.{settings, try_send_and_recv-Keeps, wait_for-Keeps}

module _ {W : Type 0} (k : Sockets W) where
  exchange-Sound : (packet : Bytes) (conn : ℕ) (n : Net W) → Sound Any (exchange k packet conn n).1
  unfolding exchange
  exchange-Sound packet conn n =
      bind-Sound Any Any (send k conn packet) _ n (send-Sound k conn packet n) (λ _ n1 _.
        bind-Sound Any Any (read_response_raw k conn) _ n1
          (Sound-mono _ Any (read_response_raw k conn n1).1 (λ _ _. tt)
            (read_response_raw_lem k conn n1))
          (λ (header, body) n2 _. elim (Bool-cases (length body == 0)) [
            | inl e ↦ rw e tt
            | inr e ↦ elim (Bool-cases (header.zip_size == header.unzip_size)) [
              | inl e2 ↦ rw (e, e2) tt
              | inr e2 ↦
                  rw (e, e2)
                    (Sound-mono _ Any (decompress_zlib_checked k body header.unzip_size) (λ _ _. tt)
                      (decompress_zlib_checked_lem k body header.unzip_size))
            ]
          ]))

module _ {I W : Type 0} where
  connected_or_not-Sound :
      (server : Server) (pool : PoolInner) (d : Net W × Outcome ℕ) (s : Session I W)
      → Sound Any d.1
      → Sound Any (connected_or_not server pool d s).1
  unfolding connected_or_not
  connected_or_not-Sound server pool (n, ok conn) s h = tt
  connected_or_not-Sound server pool (n, err e) s h = tt
  connected_or_not-Sound server pool (n, panic) s h = h

  -- What a session answers, if neither the value nor the error is unexpected.
  abbrev pub Answers : {A : Type 0} → (TdxError → Type 0) → Session I W × Outcome A → Type 0
  Answers E (s, ok a) = Unit
  Answers E (s, err e) = E e
  Answers E (s, panic) = ⊥

module _ {I W : Type 0} (k : Sockets W) where
  obtain-Sound :
      (server : Server) (b : PoolInner × Borrowed) (s : Session I W)
      → Sound Any (obtain k server b s).1
  unfolding obtain
  obtain-Sound server (pool, reused c) s = tt
  obtain-Sound server (pool, exhausted) s = tt
  obtain-Sound server (pool, connecting) s =
      connected_or_not-Sound server pool (dial k server (some s.client.pool_timeout) s.net) s
        (dial-Sound k server (some s.client.pool_timeout) s.net)

  pub try_send_and_recv-Sound :
      (packet : Bytes) (s : Session I W) → Sound Any (try_send_and_recv k packet s).1
  unfolding try_send_and_recv borrow_connection
  try_send_and_recv-Sound packet s =
      let server = current_server s.client in
      let found = obtain k server (borrow pool_size server s.client.pool) s in
      after-Sound Any Any found.0 found.1 _
        (obtain-Sound server (borrow pool_size server s.client.pool) s)
        (λ c s' _. exchange-Sound k packet c.conn s'.net)

  -- The search ends, one way or the other.
  abbrev Ends : Session I W × Outcome Bool → Type 0
  Ends r = (found : Bool) × (r.1 ≡ ok found)

  try_servers-Ends :
      (skip : Server → Client I → Bool) (servers : List Server) (s : Session I W)
      → Ends (try_servers k skip (some default_timeout) servers s)
  try_servers-Ends skip servers s =
      elim (try_servers-Searches k (some default_timeout) skip s.client servers s.net) [
        | inl found ↦ (true, rw found.connected.result refl)
        | inr lost ↦ (false, rw lost.result refl)
      ]

  or_else-Ends :
      (a b : Io (Session I W) Bool) (s : Session I W)
      → Ends (a s)
      → ((s' : Session I W) → Ends (b s'))
      → Ends (or_else a b s)
  or_else-Ends a b s (true, e) step = (true, rw e refl)
  or_else-Ends a b s (false, e) step = rw e (step (a s).0)

  if-Ends :
      (b : Bool) (x y : Session I W × Outcome Bool) → Ends x → Ends y → Ends (if b then x else y)
  if-Ends true x y h1 h2 = h1
  if-Ends false x y h1 h2 = h2

  reconnect_if_needed-Ends : (s : Session I W) → Ends (reconnect_if_needed k s)
  unfolding reconnect_if_needed
  reconnect_if_needed-Ends s =
      let last = s.client.last_server in
      let again = try_servers k (λ _ _. false) (some default_timeout) (last_server_of s.client) in
      let pass = try_servers k (is_failed last) (some default_timeout) in
      let all = try_servers-Ends (is_failed last) in
      if-Ends s.client.connected (s, ok true) _ (true, refl)
        (or_else-Ends again _ s (try_servers-Ends (λ _ _. false) (last_server_of s.client) s) (λ s1.
          or_else-Ends (λ s'. pass (user_servers s'.client) s') _ s1
            (all (user_servers s1.client) s1)
            (λ s2.
              or_else-Ends (pass primary_servers) _ s2 (all primary_servers s2)
                (all all_known_servers))))

  Answers-mono :
      {A : Type 0} (E F : TdxError → Type 0) (r : Session I W × Outcome A)
      → ((e : TdxError) → E e → F e)
      → Answers E r
      → Answers F r
  Answers-mono E F (s, ok a) f h = tt
  Answers-mono E F (s, err e) f h = f e h
  Answers-mono E F (s, panic) f h = h

  settle-Answers :
      {A : Type 0} (E : TdxError → Type 0) (r : Session I W × Outcome A)
      (g : TdxError → Io (Session I W) A)
      → Sound Any r.1
      → ((e : TdxError) (s' : Session I W) → r ≡ (s', err e) → Answers E (g e s'))
      → Answers E (settle return g r)
  settle-Answers E (s, ok a) g h step = tt
  settle-Answers E (s, err e) g h step = step e s refl
  settle-Answers E (s, panic) g h step = h

  retry_loop-Answers :
      (ts : List ℕ) (packet : Bytes) (s : Session I W)
      → Answers (λ e. e ≡ retry_exhausted_error) (retry_loop k ts packet s)
  unfolding retry_loop
  retry_loop-Answers [] packet s = refl
  retry_loop-Answers (t ∷ ts) packet s =
      let s1 = sleep_for k t s in
      let s2 = (reconnect_if_needed k s1).0 in
      let (found, e) = reconnect_if_needed-Ends s1 in
      rw (retry_loop, e)
        (settle-Answers _ (try_send_and_recv k packet s2) (λ _. retry_loop k ts packet)
          (try_send_and_recv-Sound packet s2) (λ _ s3 _. retry_loop-Answers ts packet s3))

  -- A request does not panic, and its error is RETRY_EXHAUSTED, or that of the first try where the
  -- client does not retry at all or not after this error.
  pub send_and_recv_limited-Answers :
      (pace : Pace) (packet : Bytes) (s : Session I W)
      → Answers
          (λ e.
            (e ≡ retry_exhausted_error)
            ⊎ (((try_send_and_recv k packet (wait_for k pace s)).1 ≡ err e)
                × ((s.client.auto_retry && is_retryable_error e) ≡ false)))
          (send_and_recv_limited k pace packet s)
  unfolding send_and_recv_limited retry_or_fail
  send_and_recv_limited-Answers pace packet s =
      let s1 = wait_for k pace s in
      let E = λ (e : TdxError).
        (e ≡ retry_exhausted_error)
        ⊎ (((try_send_and_recv k packet s1).1 ≡ err e)
            × ((s.client.auto_retry && is_retryable_error e) ≡ false)) in
      settle-Answers E (try_send_and_recv k packet s1) (retry_or_fail k packet)
        (try_send_and_recv-Sound packet s1)
        (λ e s2 r.
          let same : settings s2.client ≡ settings s.client =
            sym (ap (λ (x : Session I W × Outcome Bytes). settings x.0.client) r)
            ∙ (try_send_and_recv-Keeps k packet s1 ∙ wait_for-Keeps k pace s) in
          let auto : s2.client.auto_retry ≡ s.client.auto_retry =
            ap (λ (d : Client I). d.auto_retry) same in
          elim (Bool-cases (s2.client.auto_retry && is_retryable_error e)) [
            | inl e1 ↦
                rw (retry_or_fail, e1)
                  (Answers-mono (λ e. e ≡ retry_exhausted_error) E
                    (retry_loop k retry_intervals packet s2) (λ _ h. inl h)
                    (retry_loop-Answers retry_intervals packet s2))
            | inr e1 ↦
                rw (retry_or_fail, e1)
                  (inr (ap (λ (x : Session I W × Outcome Bytes). x.1) r, rw (← auto) e1))
          ])

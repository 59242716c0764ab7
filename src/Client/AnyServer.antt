-- ===== src/Client/AnyServer.antt =====
-- `connect_to_any` as a whole: the order of its servers, the blacklist, and what it comes to.
use tdxrs.Base.{
  ℕ, ◌≡◌, refl, sym, ◌∙◌, Bool, true, false, Option, List, [], ◌∷◌, ◌++◌, ◌⊎◌, inl, inr, arith,
  Bool-cases, if_false, if_true,
}
use mathlib.Core.List.{Memᴰ}
use tdxrs.Errors.{TdxError, ok, err}
use tdxrs.Io.{Io, throw}
use tdxrs.Net.{Sockets, Net, Timeout}
use tdxrs.Pool.Key.{Server}
use tdxrs.Client.{
  Client, Session, session, dial, connect_internal, try_servers, connect_to_any, is_server_blocked,
  connection_failed, last_server_of, user_servers, or_else, adopt, search_servers,
}
use tdxrs.Client.KnownServers.{primary_servers, all_known_servers}
use tdxrs.Client.Connecting.{
  timeout_of, connect_internal_lem, Searches, Reached, Failed, try_servers-Searches,
  or_else-Searches,
}

-- Every server that `connect_to_any` may try, in its order.
abbrev pub candidates : {I : Type 0} → Client I → List Server
candidates c =
    last_server_of c ++ (user_servers c ++ (primary_servers ++ (all_known_servers ++ [])))

err-ok {ℓ} : {A : Type 0} {B : Type ℓ} {e : TdxError} {a : A} → err e ≡ ok a → B
err-ok h = ground (arith, h)

module _ {I W : Type 0} (k : Sockets W) (timeout : Option Timeout) where
  throw-Searches :
      (c : Client I)
      → Searches k timeout is_server_blocked c [] (err connection_failed) (throw connection_failed)
  throw-Searches c n = inr (record { failures = λ x m h. elim m [ ]; net = n; result = refl })

  search_servers-Searches :
      (c : Client I)
      → Searches k timeout is_server_blocked c
          (candidates c)
          (err connection_failed)
          (search_servers k timeout)
  unfolding search_servers
  search_servers-Searches c n =
      let pass = try_servers-Searches k timeout is_server_blocked c in
      or_else-Searches k timeout is_server_blocked c (last_server_of c) _ _
        (try_servers k is_server_blocked timeout (last_server_of c)) _ (pass (last_server_of c))
        (or_else-Searches k timeout is_server_blocked c (user_servers c) _ _
          (λ s'. try_servers k is_server_blocked timeout (user_servers s'.client) s') _
          (pass (user_servers c))
          (or_else-Searches k timeout is_server_blocked c primary_servers _ _
            (try_servers k is_server_blocked timeout primary_servers) _ (pass primary_servers)
            (or_else-Searches k timeout is_server_blocked c all_known_servers _ _
              (try_servers k is_server_blocked timeout all_known_servers) _ (pass all_known_servers)
              (throw-Searches c))))
        n

  searching :
      (c : Client I) (n : Net W)
      → c.connected ≡ false
      → search_servers k timeout (session c n) ≡ connect_to_any k timeout (session c n)
  unfolding connect_to_any
  searching c n off =
      sym (if_false c.connected (session c n, ok true) (search_servers k timeout (session c n)) off)

  -- A client that is not connected ends up with a candidate off the blacklist, its caches empty; or
  -- each of these candidates has been dialled in vain, the answer is CONNECTION_FAILED, and the client
  -- is what it was.
  pub connect_to_any_lem :
      (c : Client I) (n : Net W)
      → c.connected ≡ false
      → Reached k timeout is_server_blocked c
          (candidates c)
          (connect_to_any k timeout (session c n))
        ⊎ Failed k timeout is_server_blocked c
            (candidates c)
            (err connection_failed)
            (connect_to_any k timeout (session c n))
  connect_to_any_lem c n off = rw (← searching c n off) (search_servers-Searches c n)

  -- A client that knows a server off the blacklist which answers whenever it is dialled is connected
  -- afterwards, whatever the other servers do.
  pub connect_to_any_connects :
      (c : Client I) (n : Net W) (server : Server)
      → Memᴰ server (candidates c)
      → is_server_blocked server c ≡ false
      → ((n' : Net W) → (conn : ℕ) × ((dial k server (timeout_of k timeout c) n').1 ≡ ok conn))
      → let (s', r) = connect_to_any k timeout (session c n) in
        (r ≡ ok true) × (s'.client.connected ≡ true)
  unfolding connect_to_any adopt
  connect_to_any_connects c n server m free up = elim (Bool-cases c.connected) [
    | inl e ↦
        rw
          (
            connect_to_any,
            if_true c.connected (session c n, ok true) (search_servers k timeout (session c n)) e,
          )
          (refl, e)
    | inr e ↦ elim (connect_to_any_lem c n e) [
      | inl found ↦ rw found.connected.result (refl, refl)
      | inr lost ↦
          let (n', error, e1) = lost.failures server m free in
          let (conn, e2) = up n' in err-ok (sym e1 ∙ e2)
    ]
  ]

-- Two networks that agree on how the servers off the blacklist answer.
module _ {I W : Type 0} (k k' : Sockets W) (timeout : Option Timeout) (c : Client I)
    (agree : (server : Server) (n : Net W)
      → is_server_blocked server c ≡ false
      → dial k server (timeout_of k timeout c) n ≡ dial k' server (timeout_of k timeout c) n) where
  same_connect :
      (server : Server) (n : Net W)
      → is_server_blocked server c ≡ false
      → connect_internal k server timeout (session c n)
        ≡ connect_internal k' server timeout (session c n)
  unfolding connect_internal
  same_connect server n free = rw (connect_internal, agree server n free) refl

  same_try :
      (servers : List Server) (n : Net W)
      → try_servers k is_server_blocked timeout servers (session c n)
        ≡ try_servers k' is_server_blocked timeout servers (session c n)
  unfolding try_servers
  same_try [] n = refl
  same_try (x ∷ xs) n = elim (Bool-cases (is_server_blocked x c)) [
    | inl e ↦ rw (try_servers, e) (same_try xs n)
    | inr e ↦ elim (connect_internal_lem k timeout x c n) [
      | inl up ↦ rw (try_servers, e, ← same_connect x n e, up.result) refl
      | inr down ↦ rw (try_servers, e, ← same_connect x n e, down.result) (same_try xs down.net)
    ]
  ]

  same_or_else :
      (xs : List Server) (a a' b b' : Io (Session I W) Bool)
      → Searches k timeout is_server_blocked c xs (ok false) a
      → ((n : Net W) → a (session c n) ≡ a' (session c n))
      → ((n : Net W) → b (session c n) ≡ b' (session c n))
      → (n : Net W) → or_else a b (session c n) ≡ or_else a' b' (session c n)
  same_or_else xs a a' b b' h same_a same_b n = elim (h n) [
    | inl found ↦ rw (← same_a n, found.connected.result) refl
    | inr lost ↦ rw (← same_a n, lost.result) (same_b lost.net)
  ]

  same_search :
      (n : Net W) → search_servers k timeout (session c n) ≡ search_servers k' timeout (session c n)
  unfolding search_servers
  same_search =
      let pass = try_servers k is_server_blocked timeout in
      let pass' = try_servers k' is_server_blocked timeout in
      let all_fail = try_servers-Searches k timeout is_server_blocked c in
      same_or_else (last_server_of c) (pass (last_server_of c)) (pass' (last_server_of c)) _ _
        (all_fail (last_server_of c)) (same_try (last_server_of c))
        (same_or_else (user_servers c) (λ s. pass (user_servers s.client) s)
          (λ s. pass' (user_servers s.client) s) _ _ (all_fail (user_servers c))
          (same_try (user_servers c))
          (same_or_else primary_servers (pass primary_servers) (pass' primary_servers) _ _
            (all_fail primary_servers) (same_try primary_servers)
            (same_or_else all_known_servers (pass all_known_servers) (pass' all_known_servers) _ _
              (all_fail all_known_servers) (same_try all_known_servers) (λ n. refl))))

  -- Servers on the blacklist are never dialled: two networks that differ only at those, and agree on
  -- how the others answer, lead `connect_to_any` to the same session and the same answer.
  pub connect_to_any_ignores_blocked :
      (n : Net W) → connect_to_any k timeout (session c n) ≡ connect_to_any k' timeout (session c n)
  unfolding connect_to_any
  connect_to_any_ignores_blocked n = rw (same_search n) refl

-- ===== src/Smart/Available.antt =====
-- That `connect_to_any` of src/net/smart_client.rs finds a server that answers, in spite of its blacklist.
use tdxrs.Base.{
  ℕ, ◌≤◌, Option, ◌≡◌, refl, sym, ap, ◌∙◌, Bool, true, false, not, ◌&&◌, none, List, [], ◌∷◌, ◌++◌,
  ◌⊎◌, inl, inr, arith, Bool-cases, Option-cases,
}
use std.Path.{subst}
use mathlib.Core.List.{Memᴰ}
use tdxrs.Errors.{Outcome, ok, err, panic, TdxError}
use tdxrs.Text.{Text}
use tdxrs.Io.{Io, ◌>>◌, after, settle, return, throw}
use tdxrs.Net.{Sockets, Net, Timeout}
use tdxrs.Pool.Key.{Server, same_server, same_server_iff}
use tdxrs.ServerCache.{is_blacklisted, all_blacklisted, clear_last_success}
use tdxrs.ServerCache.Entries.{IsOff, record_failure-IsOff}
use tdxrs.Client.{
  Client, Session, session, dial, connect_internal, adopt, update, connection_failed,
}
use tdxrs.Client.KnownServers.{primary_servers, all_known_servers}
use tdxrs.Client.Connecting.{timeout_of, connect_internal_lem, append_cases}
use tdxrs.Smart.{
  SmartClient, now_of, recorded, connect_and_record, try_candidates, or_next, search_known,
  connect_to_any, change_cache,
}

abbrev pub all_known : List Server
all_known = primary_servers ++ all_known_servers

err-ok {ℓ} : {A : Type 0} {B : Type ℓ} {e : TdxError} {a : A} → err e ≡ ok a → B
err-ok h = ground (arith, h)

module _ {I W : Type 0} where
  abbrev pub Found : SmartClient I W × Outcome Bool → Type 0
  Found r = (r.1 ≡ ok true) × (r.0.inner.client.connected ≡ true)

  -- `match r { Ok(true) => return Ok(true), _ => b }`.
  abbrev on :
      Io (SmartClient I W) Bool → SmartClient I W × Outcome Bool → SmartClient I W × Outcome Bool
  on b r = settle (λ (found : Bool). elim found [ true ↦ return true | false ↦ b ]) (λ _. b) r

  on-Found :
      (b : Io (SmartClient I W) Bool) (r : SmartClient I W × Outcome Bool)
      → Found r
      → Found (on b r)
  on-Found b (s, o) (e, c) = rw e (refl, c)

  on-Lost :
      (P : SmartClient I W × Outcome Bool → Type 0) (b : Io (SmartClient I W) Bool)
      (r : SmartClient I W × Outcome Bool)
      → r.1 ≡ ok false
      → P (b r.0)
      → P (on b r)
  on-Lost P b (s, o) e p = rw e p

-- A client which had the settings of `c` at the time `now`.
module _ {I W : Type 0} (k : Sockets W) (clock : W → ℕ) (name_of : Server → Text) (x : Server)
    (timeout : Option Timeout) (c : Client I) (now : ℕ)
    (up : (n : Net W) → (conn : ℕ) × ((dial k x (timeout_of k timeout c) n).1 ≡ ok conn))
    (forward : (y : Server) (n : Net W)
      → clock n.world ≤ clock (dial k y (timeout_of k timeout c) n).0.world) where
  -- The server `x` is not skipped.
  abbrev IsLater : SmartClient I W → Type 0
  IsLater s = IsOff now x s.cache × (now ≤ clock s.inner.net.world)

  abbrev Free : Bool → SmartClient I W → Type 0
  Free ignore s = (s.inner.client ≡ c) × ((ignore ≡ true) ⊎ IsLater s)

  abbrev Good : Bool → SmartClient I W × Outcome Bool → Type 0
  Good ignore r = Found r ⊎ ((r.1 ≡ ok false) × Free ignore r.0)

  keeps_net :
      (y : Server) (n : Net W) (r : Outcome ℕ)
      → (after (session c n) r (λ conn. update (adopt conn y) >> return true)).0.net ≡ n
  keeps_net y n (ok conn) = refl
  keeps_net y n (err e) = refl
  keeps_net y n panic = refl

  -- The network is left as the attempt to connect leaves it.
  connect_net :
      (y : Server) (n : Net W)
      → (connect_internal k y timeout (session c n)).0.net ≡ (dial k y (timeout_of k timeout c) n).0
  unfolding connect_internal
  connect_net y n = let d = dial k y (timeout_of k timeout c) n in keeps_net y d.0 d.1

  -- Every attempt comes to an answer, and that at `x` connects.
  connect_and_record-Good :
      (ignore : Bool) (y : Server) (name : Text) (s : SmartClient I W)
      → Free ignore s
      → Found (connect_and_record k clock name_of y name timeout s)
        ⊎ ((same_server y x ≡ false)
            × ((connect_and_record k clock name_of y name timeout s).1 ≡ ok false)
            × Free ignore (connect_and_record k clock name_of y name timeout s).0)
  unfolding connect_and_record recorded adopt
  connect_and_record-Good ignore y name s free =
      let start = k.now s.inner.net.world in
      let Goal : Session I W × Outcome Bool → Type 0 = λ r.
        Found (recorded k clock name_of y name start s r)
        ⊎ ((same_server y x ≡ false)
            × ((recorded k clock name_of y name start s r).1 ≡ ok false)
            × Free ignore (recorded k clock name_of y name start s r).0) in
      let (settings, skip) = free in
      let same_inner : session c s.inner.net ≡ s.inner =
        ap (λ (z : Client I). session z s.inner.net) (sym settings) in
      subst (λ (z : Session I W). Goal (connect_internal k y timeout z)) same_inner
        (elim (connect_internal_lem k timeout y c s.inner.net) [
          | inl there ↦ subst Goal (sym there.result) (inl (refl, refl))
          | inr down ↦ elim (Bool-cases (same_server y x)) [
            | inl same ↦
                let (conn, e) = up down.before in
                let same' : y ≡ x = (same_server_iff y x).0 same in
                err-ok (
                  sym down.refusal
                  ∙ (ap (λ (z : Server). (dial k z (timeout_of k timeout c) down.before).1) same'
                      ∙ e))
            | inr other ↦
                let left : down.net ≡ (dial k y (timeout_of k timeout c) s.inner.net).0 =
                  ap (λ (r : Session I W × Outcome Bool). r.0.net) (sym down.result)
                  ∙ connect_net y s.inner.net in
                let on : clock s.inner.net.world ≤ clock down.net.world =
                  subst (λ (n : Net W). clock s.inner.net.world ≤ clock n.world) (sym left)
                    (forward y s.inner.net) in
                subst Goal (sym down.result) (
                  inr (
                    other,
                    refl,
                    (
                      refl,
                      elim skip [
                        | inl all ↦ inl all
                        | inr (off, late) ↦ inr (
                          record_failure-IsOff now _ x y s.cache other off,
                          omega (arith, late, on),
                        )
                      ],
                    ),
                  ))
          ]
        ])

  not_skipped :
      (ignore : Bool) (s : SmartClient I W)
      → Free ignore s
      → (not ignore && is_blacklisted (now_of k clock name_of s.inner) x s.cache) ≡ false
  unfolding is_blacklisted
  not_skipped ignore s (settings, inl all) = rw all refl
  not_skipped false s (settings, inr (off, late)) = off (clock s.inner.net.world) late
  not_skipped true s (settings, inr h) = refl

  try_candidates-Good :
      (ignore : Bool) (xs : List Server) (s : SmartClient I W)
      → Free ignore s
      → Good ignore (try_candidates k clock name_of ignore timeout xs s)
  unfolding try_candidates
  try_candidates-Good ignore [] s free = inr (refl, free)
  try_candidates-Good ignore (y ∷ ys) s free =
      let rest = try_candidates k clock name_of ignore timeout ys in
      let first = connect_and_record k clock name_of y (name_of y) timeout s in
      elim (Bool-cases (not ignore && is_blacklisted (now_of k clock name_of s.inner) y s.cache)) [
        | inl e ↦ rw (try_candidates, e) (try_candidates-Good ignore ys s free)
        | inr e ↦
            rw (try_candidates, e)
              (elim (connect_and_record-Good ignore y (name_of y) s free) [
                | inl found ↦ inl (on-Found rest first found)
                | inr (other, lost, free') ↦
                    on-Lost (Good ignore) rest first lost
                      (try_candidates-Good ignore ys first.0 free')
              ])
      ]

  try_candidates-Found :
      (ignore : Bool) (xs : List Server) (s : SmartClient I W)
      → Memᴰ x xs
      → Free ignore s
      → Found (try_candidates k clock name_of ignore timeout xs s)
  unfolding try_candidates
  try_candidates-Found ignore [] s m free = elim m [ ]
  try_candidates-Found ignore (y ∷ ys) s m free =
      let rest : Io (SmartClient I W) Bool = try_candidates k clock name_of ignore timeout ys in
      let first = connect_and_record k clock name_of y (name_of y) timeout s in
      let skip =
        λ (z : Server). not ignore && is_blacklisted (now_of k clock name_of s.inner) z s.cache in
      elim (Bool-cases (skip y)) [
        | inl e ↦
            rw (try_candidates, e)
              (elim m [
                | Memᴰ.head e' ↦
                    absurd (
                      ground (arith, e, subst (λ z. skip z ≡ false) e' (not_skipped ignore s free)))
                | Memᴰ.tail m' ↦ try_candidates-Found ignore ys s m' free
              ])
        | inr e ↦
            rw (try_candidates, e)
              (elim (connect_and_record-Good ignore y (name_of y) s free) [
                | inl found ↦ on-Found rest first found
                | inr (other, lost, free') ↦ on-Lost Found rest first lost (elim m [
                  | Memᴰ.head e' ↦ absurd (ground (arith, other, (same_server_iff y x).1 (sym e')))
                  | Memᴰ.tail m' ↦ try_candidates-Found ignore ys first.0 m' free'
                ])
              ])
      ]

  search_known-Found :
      (s : SmartClient I W)
      → Memᴰ x all_known
      → s.inner.client ≡ c
      → (all_blacklisted (now_of k clock name_of s.inner) s.cache all_known ≡ true) ⊎ IsLater s
      → Found (search_known k clock name_of timeout s)
  unfolding search_known
  search_known-Found s m settings skip =
      let ignore = all_blacklisted (now_of k clock name_of s.inner) s.cache all_known in
      let free : Free (all_blacklisted (now_of k clock name_of s.inner) s.cache all_known) s =
        (settings, skip) in
      let others = try_candidates k clock name_of ignore timeout all_known_servers in
      let first = try_candidates k clock name_of ignore timeout primary_servers s in
      let second = or_next k clock name_of others (throw connection_failed) in
      elim (append_cases primary_servers m) [
        | inl m1 ↦ on-Found second first (try_candidates-Found ignore primary_servers s m1 free)
        | inr m2 ↦ elim (try_candidates-Good ignore primary_servers s free) [
          | inl found ↦ on-Found second first found
          | inr (lost, free') ↦ on-Lost Found second first lost (
              on-Found (throw connection_failed) (others first.0)
                (try_candidates-Found ignore all_known_servers first.0 m2 free'))
        ]
      ]

  connect_to_any_lem :
      (s : SmartClient I W)
      → Memᴰ x all_known
      → s.inner.client ≡ c
      → IsLater s
        ⊎ ((s.cache.last_success ≡ none)
            × (all_blacklisted (now_of k clock name_of s.inner) s.cache all_known ≡ true))
      → Found (connect_to_any k clock name_of timeout s)
  unfolding connect_to_any clear_last_success is_blacklisted
  connect_to_any_lem s m settings free = elim (Option-cases s.cache.last_success) [
    | inl e ↦
        rw (connect_to_any, e)
          (search_known-Found s m settings
            (elim free [ inl h ↦ inr h | inr (forgotten, all) ↦ inl all ]))
    | inr (last, e) ↦
        let rest = λ (s' : SmartClient I W).
          search_known k clock name_of timeout
            (change_cache k clock name_of clear_last_success s') in
        let first = connect_and_record k clock name_of last.server last.name timeout s in
        let later : IsLater s = elim free [
          | inl h ↦ h
          | inr (forgotten, all) ↦ absurd (ground (arith, forgotten, e))
        ] in
        rw (connect_to_any, e)
          (elim (connect_and_record-Good false last.server last.name s (settings, inr later)) [
            | inl found ↦ on-Found rest first found
            | inr (other, lost, (settings', skip)) ↦ on-Lost Found rest first lost (
                search_known-Found (change_cache k clock name_of clear_last_success first.0) m
                  settings' (elim skip [ inl h ↦ absurd (ground (arith, h)) | inr h ↦ inr h ]))
          ])
  ]

module _ {I W : Type 0} (k : Sockets W) (clock : W → ℕ) (name_of : Server → Text) where
  -- If a known server answers whenever it is dialled, the attempts to connect do not set the clock
  -- back, and the blacklist does not hold that server off now or later, as it has no entry or its
  -- entries have expired, then the client ends up connected, whatever the other servers do and
  -- whichever of them is remembered. It also does if all the known servers are blacklisted and none is
  -- remembered.
  pub connect_to_any-Found :
      (x : Server) (timeout : Option Timeout) (s : SmartClient I W)
      → Memᴰ x all_known
      → ((n : Net W)
          → (conn : ℕ) × ((dial k x (timeout_of k timeout s.inner.client) n).1 ≡ ok conn))
      → ((y : Server) (n : Net W)
          → clock n.world ≤ clock (dial k y (timeout_of k timeout s.inner.client) n).0.world)
      → IsOff (now_of k clock name_of s.inner) x s.cache
        ⊎ ((s.cache.last_success ≡ none)
            × (all_blacklisted (now_of k clock name_of s.inner) s.cache all_known ≡ true))
      → Found (connect_to_any k clock name_of timeout s)
  connect_to_any-Found x timeout s m up forward free =
      connect_to_any_lem k clock name_of x timeout s.inner.client (now_of k clock name_of s.inner)
        up forward s m refl (elim free [ inl off ↦ inl (off, omega arith) | inr all ↦ inr all ])

-- ===== src/Client/Connecting.antt =====
-- What `connect_internal` and `connect_to_any` come to.
use tdxrs.Base.{
  ℕ, ◌≡◌, refl, Bool, true, false, Option, List, [], ◌∷◌, ◌++◌, ◌⊎◌, inl, inr, Bool-cases, arith,
}
use mathlib.Core.List.{Memᴰ}
use tdxrs.Errors.{TdxError, Outcome, ok, err, panic, Sound}
use tdxrs.Io.{Io}
use tdxrs.Net.{Sockets, Net, Timeout, open_connection, perform_handshake}
use tdxrs.Net.Response.{bind-Sound}
use tdxrs.Net.Total.{Any, open_connection-Sound, perform_handshake-Sound}
use tdxrs.Pool.Key.{Server}
use tdxrs.Client.{
  Client, Session, session, or_else, dial, connect_internal, try_servers, adopt, unwrap_or,
}

pub dial-Sound :
    {W : Type 0} (k : Sockets W) (server : Server) (timeout : Timeout) (n : Net W)
    → Sound Any (dial k server timeout n).1
dial-Sound k server timeout n =
    bind-Sound Any Any (open_connection k server timeout) _ n
      (open_connection-Sound k server timeout n)
      (λ conn n1 _.
        bind-Sound Any Any (perform_handshake k conn) _ n1 (perform_handshake-Sound k conn n1)
          (λ _ _ _. tt))

append_left : {x : Server} (xs ys : List Server) → Memᴰ x xs → Memᴰ x (xs ++ ys)
append_left [] ys m = elim m [ ]
append_left (y ∷ xs) ys (Memᴰ.head e) = Memᴰ.head e
append_left (y ∷ xs) ys (Memᴰ.tail m) = Memᴰ.tail (append_left xs ys m)

append_right : {x : Server} (xs : List Server) {ys : List Server} → Memᴰ x ys → Memᴰ x (xs ++ ys)
append_right [] m = m
append_right (y ∷ xs) m = Memᴰ.tail (append_right xs m)

pub append_cases :
    {x : Server} (xs : List Server) {ys : List Server} → Memᴰ x (xs ++ ys) → Memᴰ x xs ⊎ Memᴰ x ys
append_cases [] m = inr m
append_cases (y ∷ xs) (Memᴰ.head e) = inl (Memᴰ.head e)
append_cases (y ∷ xs) (Memᴰ.tail m) = elim (append_cases xs m) [
  | inl h ↦ inl (Memᴰ.tail h)
  | inr h ↦ inr h
]

module _ {I W : Type 0} (k : Sockets W) (timeout : Option Timeout) where
  abbrev pub timeout_of : Client I → Timeout
  timeout_of c = unwrap_or c.connect_timeout timeout

  -- A server answered: the client has adopted it.
  pub record Connected (c : Client I) (server : Server) (r : Session I W × Outcome Bool)
      : Type 0 where
    pub conn : ℕ
    pub net : Net W
    pub result : r ≡ (session (adopt conn server c) net, ok true)

  -- A server did not answer: only the network has seen anything.
  pub record Refused (c : Client I) (server : Server) (r : Session I W × Outcome Bool)
      : Type 0 where
    pub error : TdxError
    pub before : Net W
    pub refusal : (dial k server (timeout_of c) before).1 ≡ err error
    pub net : Net W
    pub result : r ≡ (session c net, err error)

  pub connect_internal_lem :
      (server : Server) (c : Client I) (n : Net W)
      → Connected c server (connect_internal k server timeout (session c n))
        ⊎ Refused c server (connect_internal k server timeout (session c n))
  unfolding connect_internal
  connect_internal_lem server c n =
      by_answer (dial k server (timeout_of c) n).0 (dial k server (timeout_of c) n).1 refl
        (dial-Sound k server (timeout_of c) n)
    where
      by_answer :
          (n' : Net W) (r : Outcome ℕ)
          → (dial k server (timeout_of c) n) ≡ (n', r)
          → Sound Any r
          → Connected c server (connect_internal k server timeout (session c n))
            ⊎ Refused c server (connect_internal k server timeout (session c n))
      by_answer n' (ok conn) e h =
          inl (record { conn = conn; net = n'; result = rw (connect_internal, e) refl })
      by_answer n' (err x) e h = inr (record {
        error = x;
        before = n;
        refusal = rw e refl;
        net = n';
        result = rw (connect_internal, e) refl;
      })
      by_answer n' panic e h = absurd h

  module _ (skip : Server → Client I → Bool) where
    -- One of the servers that are not skipped answered.
    pub record Reached (c : Client I) (servers : List Server) (r : Session I W × Outcome Bool)
        : Type 0 where
      pub server : Server
      pub listed : Memᴰ server servers
      pub allowed : skip server c ≡ false
      pub connected : Connected c server r

    -- Each of the servers that are not skipped was dialled, and failed.
    abbrev pub AllFailed : Client I → List Server → Type 0
    AllFailed c servers =
        (x : Server)
        → Memᴰ x servers
        → skip x c ≡ false
        → (n : Net W) × (e : TdxError) × ((dial k x (timeout_of c) n).1 ≡ err e)

    pub record Failed (c : Client I) (servers : List Server) (a : Outcome Bool)
        (r : Session I W × Outcome Bool) : Type 0 where
      pub failures : AllFailed c servers
      pub net : Net W
      pub result : r ≡ (session c net, a)

    -- A method that goes through servers.
    abbrev pub Searches :
        Client I → List Server → Outcome Bool → (Session I W → Session I W × Outcome Bool) → Type 0
    Searches c servers a m =
        (n : Net W) → Reached c servers (m (session c n)) ⊎ Failed c servers a (m (session c n))

    abbrev pub Failure : Client I → Server → Type 0
    Failure c x = (n : Net W) × (e : TdxError) × ((dial k x (timeout_of c) n).1 ≡ err e)

    abbrev pub Found : Client I → List Server → Outcome Bool → Session I W × Outcome Bool → Type 0
    Found c servers a r = Reached c servers r ⊎ Failed c servers a r

    widen :
        (c : Client I) (xs ys : List Server) (r : Session I W × Outcome Bool)
        (found : Reached c xs r)
        → Memᴰ found.server ys
        → Reached c ys r
    widen c xs ys r found m = record {
      server = found.server;
      listed = m;
      allowed = found.allowed;
      connected = found.connected;
    }

    -- A server in front that is skipped, or failed, is no more than that.
    behind :
        (c : Client I) (x : Server) (xs : List Server) (a : Outcome Bool)
        (r : Session I W × Outcome Bool)
        → (skip x c ≡ false → Failure c x)
        → Found c xs a r
        → Found c (x ∷ xs) a r
    behind c x xs a r front (inl found) = inl (widen c xs (x ∷ xs) r found (Memᴰ.tail found.listed))
    behind c x xs a r front (inr lost) = inr (record {
      failures = λ y m h. elim m [
        | Memᴰ.head e ↦ rw e (front (rw (← e) h))
        | Memᴰ.tail m' ↦ lost.failures y m' h
      ];
      net = lost.net;
      result = lost.result;
    })

    pub try_servers-Searches :
        (c : Client I) (servers : List Server)
        → Searches c servers (ok false) (try_servers k skip timeout servers)
    unfolding try_servers
    try_servers-Searches c [] n =
        inr (record { failures = λ x m h. elim m [ ]; net = n; result = refl })
    try_servers-Searches c (x ∷ xs) n = elim (Bool-cases (skip x c)) [
      | inl e ↦
          rw (try_servers, e)
            (behind c x xs (ok false) (try_servers k skip timeout xs (session c n))
              (λ h. absurd (ground (arith, e, h))) (try_servers-Searches c xs n))
      | inr e ↦ elim (connect_internal_lem x c n) [
        | inl up ↦ inl (record {
          server = x;
          listed = Memᴰ.head refl;
          allowed = e;
          connected = record {
            conn = up.conn;
            net = up.net;
            result = rw (try_servers, e, up.result) refl;
          };
        })
        | inr down ↦
            rw (try_servers, e, down.result)
              (behind c x xs (ok false) (try_servers k skip timeout xs (session c down.net))
                (λ _. (down.before, down.error, down.refusal)) (try_servers-Searches c xs down.net))
      ]
    ]

    pub or_else-Searches :
        (c : Client I) (xs ys : List Server) (a : Outcome Bool)
        (first then_ : Io (Session I W) Bool)
        → Searches c xs (ok false) first
        → Searches c ys a then_
        → Searches c (xs ++ ys) a (or_else first then_)
    or_else-Searches c xs ys a first then_ h1 h2 n = elim (h1 n) [
      | inl found ↦ inl (record {
        server = found.server;
        listed = append_left xs ys found.listed;
        allowed = found.allowed;
        connected = record {
          conn = found.connected.conn;
          net = found.connected.net;
          result = rw found.connected.result refl;
        };
      })
      | inr lost ↦ rw lost.result (elim (h2 lost.net) [
        | inl found ↦ inl (
            widen c ys (xs ++ ys) (then_ (session c lost.net)) found (append_right xs found.listed))
        | inr lost2 ↦ inr (record {
          failures = λ y m h. elim (append_cases xs m) [
            | inl m1 ↦ lost.failures y m1 h
            | inr m2 ↦ lost2.failures y m2 h
          ];
          net = lost2.net;
          result = lost2.result;
        })
      ])
    ]

-- ===== src/Client/Calls/Caches.antt =====
-- The cache of the counts of src/net/client.rs, which `get_security_count` keeps.
use tdxrs.Base.{ℕ, ◌+◌, ◌<◌, ◌≡◌, refl, sym, ap, none, some, ◌∷◌, lt→ltb, ==_iff, arith}
use tdxrs.Errors.{Outcome, ok, err, panic}
use tdxrs.Io.{Io, after}
use tdxrs.Net.{Sockets, Net}
use tdxrs.Listing.{parse_security_count}
use tdxrs.Client.{Session, session, Cache, CacheEntry}
use tdxrs.Client.Packets.{count_packet}
use tdxrs.Client.Calls.{cached, ask, keep_count, get_security_count}

cached-first :
    {A : Type 0} (now market : ℕ) (entry : CacheEntry A) (rest : Cache A)
    → now < entry.expires_at
    → cached now market ((market, entry) ∷ rest) ≡ some entry.value
unfolding cached
cached-first now market entry rest h =
    rw ((==_iff market market).1 refl, lt→ltb now entry.expires_at h) refl

-- A chain that returns has returned at every step.
after-ok :
    {S A B : Type 0} (s s' : S) (r : Outcome A) (f : A → Io S B) (b : B)
    → after s r f ≡ (s', ok b)
    → (a : A) × (f a s ≡ (s', ok b))
after-ok s s' (ok a) f b e = (a, e)
after-ok {S = S} {B = B} s s' (err x) f b e =
    absurd (ground (arith, ap (λ (p : S × Outcome B). p.1) e))
after-ok {S = S} {B = B} s s' panic f b e =
    absurd (ground (arith, ap (λ (p : S × Outcome B). p.1) e))

module _ {I W : Type 0} (k : Sockets W) where
  count_hit :
      (market count : ℕ) (s : Session I W)
      → cached (k.now s.net.world) market s.client.count_cache ≡ some count
      → get_security_count k market s ≡ (s, ok count)
  unfolding get_security_count
  count_hit market count s h = rw (get_security_count, h) refl

  count_kept :
      (market a count : ℕ) (s s' : Session I W) (n : Net W)
      → keep_count k market a s ≡ (s', ok count)
      → k.now n.world < k.now s'.net.world + s'.client.cache_ttl
      → cached (k.now n.world) market s'.client.count_cache ≡ some count
  unfolding keep_count
  count_kept market a count s s' n e good =
      let same : a ≡ count = ground (arith, ap (λ (p : Session I W × Outcome ℕ). p.1) e) in
      let state : s' ≡ (keep_count k market a s).0 =
        sym (ap (λ (p : Session I W × Outcome ℕ). p.0) e) in
      let good' : k.now n.world < k.now s.net.world + s.client.cache_ttl = rw state at good in
      rw (state, ← same) (cached-first (k.now n.world) market _ s.client.count_cache good')

  -- What `get_security_count` had to ask for it returns again, without the network, until the time to
  -- live is over.
  pub get_security_count_again :
      (market count : ℕ) (s s' : Session I W) (n : Net W)
      → cached (k.now s.net.world) market s.client.count_cache ≡ none
      → get_security_count k market s ≡ (s', ok count)
      → k.now n.world < k.now s'.net.world + s'.client.cache_ttl
      → get_security_count k market (session s'.client n) ≡ (session s'.client n, ok count)
  unfolding get_security_count
  get_security_count_again market count s s' n miss e good =
      let asked = ask k (count_packet market) parse_security_count s in
      let e' : after asked.0 asked.1 (keep_count k market) ≡ (s', ok count) =
        rw (get_security_count, miss) at e in
      let (a, kept) = after-ok asked.0 s' asked.1 (keep_count k market) count e' in
      count_hit market count (session s'.client n)
        (count_kept market a count asked.0 s' n kept good)

-- ===== src/Smart/Rounds.antt =====
-- The requests of src/net/smart_client.rs: the check of a server whose answer is empty, and the rounds
-- with another server each.
use tdxrs.Base.{ℕ, zero, suc, Bool, true, false, Option, none, some, List, [], ◌∷◌}
use tdxrs.Errors.{Outcome, ok, err, panic, TdxError}
use tdxrs.Bytes.{Bytes}
use tdxrs.Floats.{Floats}
use tdxrs.Text.{Text}
use tdxrs.Io.{Io, ◌>>=◌, throw, settle}
use tdxrs.Net.{Sockets}
use tdxrs.Pool.Key.{Server}
use tdxrs.Requests.{build_security_bars_packet}
use tdxrs.Bars.{SecurityBar, parse_security_bars}
use tdxrs.Quotes.{SecurityQuote}
use tdxrs.ServerCache.{ServerCache, Reason, record_success, record_failure, add_to_blacklist}
use tdxrs.Client.{Session, disconnect, connection_failed}
use tdxrs.Client.Exchange.{send_and_recv, retry_exhausted_error}
use tdxrs.Client.Calls.Data.{get_security_quotes as inner_quotes}
use tdxrs.Client.Calls.Bars.{get_security_bars as inner_bars}
use tdxrs.Smart.{SmartClient, try_next_server, record_current_failure}

-- "600519".
abbrev probe_code : Bytes
probe_code = 54 ∷ 48 ∷ 48 ∷ 53 ∷ 49 ∷ 57 ∷ []

abbrev unwrap_error : Option TdxError → TdxError
unwrap_error none = retry_exhausted_error
unwrap_error (some e) = e

module _ {I W : Type 0} (fl : Floats) (max_year : ℕ) (k : Sockets W) (clock : W → ℕ)
    (name_of : Server → Text) where
  -- A failed check: the failure is counted, behind an entry in the blacklist if the answer was there,
  -- and the client is disconnected.
  unfoldable pub check_failed :
      Option Reason → Server → SmartClient I W → SmartClient I W × Outcome Bool
  check_failed reason server s =
      let now = clock s.inner.net.world in
      let listed : ServerCache = elim reason [
        | none ↦ s.cache
        | some r ↦ add_to_blacklist now server r s.cache
      ] in
      (
        record s {
          inner = record s.inner { client = disconnect s.inner.client };
          cache = record_failure now server listed;
        },
        ok false,
      )

  -- What the bars say about the server.
  unfoldable pub judge : Server → Text → Outcome (List (SecurityBar fl)) → Io (SmartClient I W) Bool
  unfolding check_failed
  judge server name (ok (b ∷ bs)) s = (
    record s {
      health_checked = true;
      cache = record_success (clock s.inner.net.world) server name 0 s.cache;
    },
    ok true,
  )
  judge server name (ok []) s = check_failed (some Reason.kline_empty) server s
  judge server name (err e) s = check_failed (some Reason.parse_error) server s
  judge server name panic s = (s, panic)

  -- A call of the inner client.
  abbrev on_inner : {A : Type 0} → Io (Session I W) A → Io (SmartClient I W) A
  on_inner m s = let (inner, r) = m s.inner in (record s { inner = inner }, r)

  unfoldable pub lazy_health_check : Io (SmartClient I W) Bool
  unfolding judge
  lazy_health_check s = elim s.health_checked [
    | true ↦ (s, ok true)
    | false ↦ elim s.current_server [
      | none ↦ (s, ok false)
      | some current ↦
          settle (λ body. judge current.0 current.1 (parse_security_bars fl max_year body 4))
            (λ _. check_failed none current.0)
            (on_inner (send_and_recv k (build_security_bars_packet 4 1 probe_code 0 1 0)) s)
    ]
  ]

  -- On to another server, or to the error if there is none.
  unfoldable pub switch :
      {A : Type 0} → Io (SmartClient I W) A → (TdxError → TdxError) → Io (SmartClient I W) A
  switch next failed s =
      settle
        (λ (found : Bool). elim found [ true ↦ next | false ↦ throw (failed connection_failed) ])
        (λ e. throw (failed e)) (try_next_server k clock name_of s)

  -- What a round makes of the answer, `next` being the rounds that are left.
  unfoldable pub use_answer :
      {A : Type 0}
      → (TdxError → Option TdxError → Option TdxError)
      → (Option TdxError → Io (SmartClient I W) (List A))
      → Option TdxError
      → SmartClient I W × Outcome (List A)
      → SmartClient I W × Outcome (List A)
  unfolding lazy_health_check switch
  use_answer lost next last_err (s, ok (x ∷ xs)) = (s, ok (x ∷ xs))
  use_answer lost next last_err (s, ok []) =
      (lazy_health_check >>= λ (healthy : Bool). elim healthy [
        | true ↦ next last_err
        | false ↦ switch (next last_err) (λ e. unwrap_error (lost e last_err))
      ])
        s
  use_answer lost next last_err (s, err e) =
      switch (next (some e)) (λ _. e) (record_current_failure k clock name_of s)
  use_answer lost next last_err (s, panic) = (s, panic)

  -- The rounds that are left, each with another server unless the answer was empty from a server that
  -- is well. `lost` is what is kept as the last error if there is no other server.
  unfoldable pub rounds :
      {A : Type 0}
      → (TdxError → Option TdxError → Option TdxError)
      → Io (Session I W) (List A)
      → ℕ
      → Option TdxError
      → Io (SmartClient I W) (List A)
  unfolding use_answer
  rounds lost request zero last_err s = (s, err (unwrap_error last_err))
  rounds lost request (suc n) last_err s =
      use_answer lost (rounds lost request n) last_err (on_inner request s)

  unfoldable pub get_security_bars :
      ℕ → ℕ → Bytes → ℕ → ℕ → ℕ → Io (SmartClient I W) (List (SecurityBar fl))
  unfolding rounds
  get_security_bars category market code start count fq =
      rounds (λ e _. some e) (inner_bars fl max_year k category market code start count fq) 3 none

  unfoldable pub get_security_quotes :
      List (ℕ × Bytes) → Io (SmartClient I W) (List (SecurityQuote fl))
  unfolding rounds
  get_security_quotes all_stock =
      rounds (λ _ last_err. last_err) (inner_quotes fl k all_stock) 3 none

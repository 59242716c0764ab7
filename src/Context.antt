-- ===== src/Context.antt =====
-- The context of an adjustment: `fetch_context_bars_for_adjust_with_tier` of src/net/utils.rs, and with
-- 30 pages `fetch_context_for_factors` of src/net/client.rs. The request is a callback. `max_year` is the
-- year up to which the parsers take dates.
pub mod Reach
use tdxrs.Base.{
  ℕ, zero, suc, ◌+◌, Bool, true, false, Option, none, some, List, [], ◌∷◌, ◌++◌, if◌then◌else◌, leb,
  ◌==◌, min,
}
use tdxrs.Errors.{Outcome, ok, err, panic, TdxError}
use tdxrs.Bytes.{Bytes}
use tdxrs.Floats.{Floats}
use tdxrs.Io.{Io, ◌>>=◌, return, settle}
use tdxrs.Requests.{build_security_bars_packet}
use tdxrs.Bars.{SecurityBar, parse_security_bars}
use tdxrs.Events.{XdXrInfo}
use tdxrs.Adjust.{date_key, bar_key}

-- `MAX_KLINE_COUNT`.
abbrev pub max_kline_count : ℕ
max_kline_count = 800

-- The first event of category 1, by date.
unfoldable pub earliest : {fl : Floats} → List (XdXrInfo fl) → Option ℕ
earliest [] = none
earliest (x ∷ xs) =
    let rest = earliest xs in
    if x.category == 1
    then elim rest [ none ↦ some (date_key x.date) | some d ↦ some (min (date_key x.date) d) ]
    else rest

module _ {S : Type 0} (fl : Floats) where
  -- What a round does with the page that came, `next` being the next round. That a page which is not
  -- empty leaves the length as it was, the last test of the source, cannot be.
  unfoldable pub add_context :
      (List (SecurityBar fl) → Io S (List (SecurityBar fl)))
      → ℕ
      → List (SecurityBar fl)
      → Outcome (List (SecurityBar fl))
      → Io S (List (SecurityBar fl))
  add_context next ee_date context (ok []) s = (s, ok context)
  add_context next ee_date context (ok (b ∷ bs)) s = elim (leb (bar_key fl b) ee_date) [
    | true ↦ (s, ok ((b ∷ bs) ++ context))
    | false ↦ next ((b ∷ bs) ++ context) s
  ]
  add_context next ee_date context (err e) s = (s, ok context)
  add_context next ee_date context panic s = (s, panic)

module _ {S : Type 0} (fl : Floats) (max_year : ℕ) (send_fn : Bytes → Io S Bytes) where
  -- The pages in front of the bars, until they reach back to the event.
  unfoldable pub context_pages :
      ℕ → ℕ → ℕ → Bytes → ℕ → ℕ → List (SecurityBar fl) → Io S (List (SecurityBar fl))
  unfolding add_context
  context_pages zero category market code ee_date offset context s = (s, ok context)
  context_pages (suc n) category market code ee_date offset context s =
      let pkt = build_security_bars_packet category market code offset max_kline_count 0 in
      let next = context_pages n category market code ee_date (offset + max_kline_count) in
      settle
        (λ body.
          add_context fl next ee_date context (parse_security_bars fl max_year body category))
        (λ _. return context) (send_fn pkt s)

  -- `fetch_context_bars_for_adjust_with_tier`, and with 30 pages `fetch_context_for_factors`.
  unfoldable pub fetch_context :
      ℕ → ℕ → ℕ → Bytes → List (SecurityBar fl) → List (XdXrInfo fl) → Io S (List (SecurityBar fl))
  unfolding earliest context_pages
  fetch_context max_pages category market code [] xdxr = return []
  fetch_context max_pages category market code (b ∷ bs) xdxr = elim (earliest xdxr) [
    | none ↦ return []
    | some ee_date ↦
        if leb (bar_key fl b) ee_date
        then return []
        else context_pages max_pages category market code ee_date max_kline_count []
  ]

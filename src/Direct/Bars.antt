-- ===== src/Direct/Bars.antt =====
-- The bars of src/net/direct_client.rs, with the adjustment and its context. `max_year` is the year up to
-- which the parsers take dates.
use tdxrs.Base.{ℕ, List, if◌then◌else◌, ◌==◌}
use tdxrs.Errors.{ok}
use tdxrs.Bytes.{Bytes}
use tdxrs.Floats.{Floats}
use tdxrs.Io.{Io, ◌>>=◌, ◌>>◌, return, pure, settle}
use tdxrs.Net.{Sockets, Net}
use tdxrs.Requests.{build_security_bars_packet}
use tdxrs.Bars.{SecurityBar, parse_security_bars}
use tdxrs.Events.{XdXrInfo}
use tdxrs.Adjust.{FqType, FqContextTier, pages, adjust_security_bars}
use tdxrs.Client.Calls.{check_not_block_code}
use tdxrs.Direct.{DirectClient, ask, send_and_recv, get_xdxr_info}
use tdxrs.Context.{fetch_context}

unfoldable pub set_fq_context_tier : FqContextTier → DirectClient → DirectClient
set_fq_context_tier FqContextTier.low c = record c { fq_context_tier = 0 }
set_fq_context_tier FqContextTier.mid c = record c { fq_context_tier = 1 }
set_fq_context_tier FqContextTier.high c = record c { fq_context_tier = 2 }

unfoldable pub fq_context_tier : DirectClient → FqContextTier
fq_context_tier c =
    if c.fq_context_tier == 0
    then FqContextTier.low
    else if c.fq_context_tier == 2
    then FqContextTier.high
    else FqContextTier.mid

module _ {W : Type 0} (fl : Floats) (max_year : ℕ) (k : Sockets W) (c : DirectClient) where
  unfoldable pub fetch_context_bars_for_adjust :
      ℕ
      → ℕ
      → Bytes
      → List (SecurityBar fl)
      → List (XdXrInfo fl)
      → Io (Net W) (List (SecurityBar fl))
  unfolding fetch_context fq_context_tier
  fetch_context_bars_for_adjust category market code bars xdxr =
      fetch_context fl max_year (send_and_recv k c) (pages (fq_context_tier c)) category market code
        bars xdxr

  -- Without events the source returns at once, as `fetch_context` does without one of category 1.
  unfoldable pub fetch_context_for_factors :
      ℕ
      → ℕ
      → Bytes
      → List (SecurityBar fl)
      → List (XdXrInfo fl)
      → Io (Net W) (List (SecurityBar fl))
  unfolding fetch_context
  fetch_context_for_factors category market code bars xdxr =
      fetch_context fl max_year (send_and_recv k c) 30 category market code bars xdxr

  -- The adjustment behind `get_security_bars`; without the events the bars stay as they are.
  unfoldable pub adjust_fetched :
      ℕ → ℕ → Bytes → ℕ → List (SecurityBar fl) → Io (Net W) (List (SecurityBar fl))
  unfolding get_xdxr_info fetch_context_bars_for_adjust
  adjust_fetched category market code fq bars n =
      settle
        (λ xdxr n'.
          (fetch_context_bars_for_adjust category market code bars xdxr >>= λ context.
          return (
            adjust_security_bars fl bars context xdxr (if fq == 2 then FqType.hfq else FqType.qfq)))
            n')
        (λ _ n'. (n', ok bars)) (get_xdxr_info fl k c market code n)

  unfoldable pub get_security_bars : ℕ → ℕ → Bytes → ℕ → ℕ → ℕ → Io (Net W) (List (SecurityBar fl))
  unfolding check_not_block_code adjust_fetched
  get_security_bars category market code start count fq =
      pure (check_not_block_code code)
      >> (ask k c (build_security_bars_packet category market code start count fq)
            (λ body. parse_security_bars fl max_year body category)
          >>= λ bars. if fq == 0 then return bars else adjust_fetched category market code fq bars)

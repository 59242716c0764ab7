-- ===== src/Client/Calls/Bars.antt =====
-- The methods of src/net/client.rs for bars, with the adjustment and its context. `max_year` is the
-- year up to which the parsers take dates.
use tdxrs.Base.{ℕ, List, [], ◌∷◌, if◌then◌else◌, leb, ◌==◌}
use tdxrs.Errors.{ok}
use tdxrs.Bytes.{Bytes}
use tdxrs.Floats.{Floats}
use tdxrs.Io.{Io, ◌>>=◌, ◌>>◌, return, pure, settle}
use tdxrs.Net.{Sockets}
use tdxrs.Requests.{code_bytes_strict, build_security_bars_packet, build_index_bars_packet}
use tdxrs.Bars.{SecurityBar, IndexBar, parse_security_bars, parse_index_bars}
use tdxrs.Adjust.{FqType, FqContextTier, pages, adjust_security_bars}
use tdxrs.Client.{Client, Session}
use tdxrs.Client.Exchange.{send_and_recv}
use tdxrs.Client.Paging.{get_bars_all}
use tdxrs.Client.Calls.{check_not_block_code, bars_attempts}
use tdxrs.Client.Calls.Data.{get_xdxr_info}
use tdxrs.Context.{fetch_context}

module _ {I W : Type 0} (fl : Floats) (max_year : ℕ) (k : Sockets W) where
  unfoldable pub tier_of : Client I → FqContextTier
  tier_of c =
      if c.fq_context_tier == 0
      then FqContextTier.low
      else if c.fq_context_tier == 2
      then FqContextTier.high
      else FqContextTier.mid

  -- The adjustment behind `get_security_bars`; without the events the bars stay as they are.
  unfoldable pub adjust_fetched :
      ℕ → ℕ → Bytes → ℕ → List (SecurityBar fl) → Io (Session I W) (List (SecurityBar fl))
  unfolding get_xdxr_info fetch_context tier_of
  adjust_fetched category market code fq bars s =
      settle
        (λ xdxr s'.
          (fetch_context fl max_year (send_and_recv k) (pages (tier_of s'.client)) category market
                code bars xdxr
              >>= λ context. return (
                  adjust_security_bars fl bars context xdxr
                    (if fq == 2 then FqType.hfq else FqType.qfq)))
            s')
        (λ _ s'. (s', ok bars)) (get_xdxr_info fl k market code s)

  unfoldable pub get_security_bars :
      ℕ → ℕ → Bytes → ℕ → ℕ → ℕ → Io (Session I W) (List (SecurityBar fl))
  unfolding check_not_block_code bars_attempts adjust_fetched
  get_security_bars category market code start count fq =
      let retry_empty = leb 4 category in
      pure (check_not_block_code code)
      >> (pure (code_bytes_strict code) >>= λ _.
          bars_attempts k (if retry_empty then 3 else 1) retry_empty
            (build_security_bars_packet category market code start count fq)
            (λ body. parse_security_bars fl max_year body category)
          >>= λ bars. elim bars [
            | [] ↦ return []
            | b ∷ bs ↦
                if fq == 0 then return (b ∷ bs) else adjust_fetched category market code fq (b ∷ bs)
          ])

  unfoldable pub get_index_bars : ℕ → ℕ → Bytes → ℕ → ℕ → ℕ → Io (Session I W) (List (IndexBar fl))
  unfolding check_not_block_code bars_attempts
  get_index_bars category market code start count fq =
      let retry_empty = leb 4 category in
      pure (check_not_block_code code)
      >> bars_attempts k (if retry_empty then 3 else 1) retry_empty
          (build_index_bars_packet category market code start count 0)
          (λ body. parse_index_bars fl max_year body category)

  unfoldable pub get_security_bars_all :
      ℕ → ℕ → Bytes → ℕ → ℕ → Io (Session I W) (List (SecurityBar fl))
  unfolding get_security_bars
  get_security_bars_all category market code count fq =
      get_bars_all (λ offset batch. get_security_bars category market code offset batch fq) count

  unfoldable pub get_index_bars_all : ℕ → ℕ → Bytes → ℕ → ℕ → Io (Session I W) (List (IndexBar fl))
  unfolding get_index_bars
  get_index_bars_all category market code count fq =
      get_bars_all (λ offset batch. get_index_bars category market code offset batch fq) count

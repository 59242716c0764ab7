-- ===== src/Client/Calls/Refusals.antt =====
-- What the methods of src/net/client.rs refuse before they send anything.
use tdxrs.Base.{ℕ, ◌≡◌, refl, true, List, ◌∷◌}
use tdxrs.Errors.{TdxError, Outcome, err}
use tdxrs.Bytes.{Bytes}
use tdxrs.Floats.{Floats}
use tdxrs.Net.{Sockets}
use tdxrs.Requests.{code_bytes_strict}
use tdxrs.Client.{Session}
use tdxrs.Client.Exchange.{Pace}
use tdxrs.Client.Calls.{ask_code, is_block_code, check_not_block_code, block_code_refused}
use tdxrs.Client.Calls.Data.{
  get_history_minute_time_data, get_transaction_data, get_history_transaction_data,
  get_finance_info, get_xdxr_info, check_codes, get_security_quotes,
}
use tdxrs.Client.Calls.Bars.{get_security_bars, get_index_bars}

module _ {I W : Type 0} (fl : Floats) (k : Sockets W) (s : Session I W) where
  ask_code-err :
      {A : Type 0} (pace : Pace) (code : Bytes) (packet : Bytes → Bytes) (parse : Bytes → Outcome A)
      (e : TdxError)
      → code_bytes_strict code ≡ err e
      → ask_code k pace code packet parse s ≡ (s, err e)
  ask_code-err pace code packet parse e h = rw h refl

  -- A code that is not well-formed reaches no server: the methods for one code return the error of the
  -- check and leave the session, its limiters included, as it was.
  pub malformed_code_refused :
      (market : ℕ) (code : Bytes) (start count date : ℕ) (e : TdxError)
      → code_bytes_strict code ≡ err e
      → (get_history_minute_time_data fl k market code date s ≡ (s, err e))
        × (get_transaction_data fl k market code start count s ≡ (s, err e))
        × (get_history_transaction_data fl k market code start count date s ≡ (s, err e))
        × (get_finance_info fl k market code s ≡ (s, err e))
        × (get_xdxr_info fl k market code s ≡ (s, err e))
  unfolding get_history_minute_time_data get_transaction_data get_history_transaction_data
      get_finance_info get_xdxr_info
  malformed_code_refused market code start count date e h = (
    ask_code-err _ code _ _ e h,
    ask_code-err _ code _ _ e h,
    ask_code-err _ code _ _ e h,
    ask_code-err _ code _ _ e h,
    ask_code-err _ code _ _ e h,
  )

  -- A code of a block reaches no server as the code of a security, of an index or among those of
  -- quotes: the answer is BLOCK_CODE_IN_GENERAL_CLIENT.
  pub block_code_refused_lem :
      (max_year category market : ℕ) (code : Bytes) (start count fq : ℕ) (others : List (ℕ × Bytes))
      → is_block_code code ≡ true
      → (get_security_bars fl max_year k category market code start count fq s
          ≡ (s, err block_code_refused))
        × (get_index_bars fl max_year k category market code start count fq s
            ≡ (s, err block_code_refused))
        × (get_security_quotes fl k ((market, code) ∷ others) s ≡ (s, err block_code_refused))
  unfolding get_security_bars get_index_bars get_security_quotes check_not_block_code check_codes
  block_code_refused_lem max_year category market code start count fq others h =
      let refused : check_not_block_code code ≡ err block_code_refused = rw h refl in
      (rw refused refl, rw refused refl, rw (get_security_quotes, check_codes, refused) refl)

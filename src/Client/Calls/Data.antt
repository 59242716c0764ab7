-- ===== src/Client/Calls/Data.antt =====
-- The methods of src/net/client.rs for minutes, ticks, finances, events and quotes.
use tdxrs.Base.{ℕ, zero, suc, List, [], ◌∷◌, ◌++◌, if◌then◌else◌, leb, length, take, drop}
use tdxrs.Errors.{Outcome, ok, err, panic}
use tdxrs.Bytes.{Bytes}
use tdxrs.Floats.{Floats}
use tdxrs.Io.{Io, ◌>>=◌, ◌>>◌, return, pure}
use tdxrs.Net.{Sockets}
use tdxrs.Requests.{code_bytes_strict}
use tdxrs.Securities.{get_security_coefficient}
use tdxrs.Minutes.{MinuteTimePrice, parse_history_minute_time_data}
use tdxrs.Ticks.{
  TickData, parse_transaction_data_with_coefficient,
  parse_history_transaction_data_with_coefficient,
}
use tdxrs.Events.{XdXrInfo, parse_xdxr_info}
use tdxrs.Finance.{FinanceInfo, parse_finance_info}
use tdxrs.Quotes.{SecurityQuote, parse_security_quotes, filter_quotes_by_request}
use tdxrs.Client.{Session}
use tdxrs.Client.Exchange.{Pace, send_and_recv}
use tdxrs.Client.Packets.{
  quotes_packet, history_minutes_packet, ticks_packet, history_ticks_packet, finance_packet,
  xdxr_packet,
}
use tdxrs.Client.Calls.{ask_code, check_not_block_code}

-- `chunks(MAX_QUOTES_COUNT)`.
unfoldable pub chunks : {A : Type 0} → ℕ → List A → List (List A)
chunks zero xs = []
chunks (suc fuel) [] = []
chunks (suc fuel) (x ∷ xs) = take 60 (x ∷ xs) ∷ chunks fuel (drop 60 (x ∷ xs))

-- The check of every code in front of the first request.
unfoldable pub check_codes : List (ℕ × Bytes) → Outcome (Unit {0})
check_codes [] = ok tt
check_codes ((market, code) ∷ rest) = elim (check_not_block_code code) [
  | ok _ ↦ elim (code_bytes_strict code) [ ok _ ↦ check_codes rest | err e ↦ err e | panic ↦ panic ]
  | err e ↦ err e
  | panic ↦ panic
]

module _ {I W : Type 0} (fl : Floats) (k : Sockets W) where
  unfoldable pub get_history_minute_time_data :
      ℕ → Bytes → ℕ → Io (Session I W) (List (MinuteTimePrice fl))
  get_history_minute_time_data market code date =
      ask_code k Pace.minute code (history_minutes_packet date market)
        (λ body. parse_history_minute_time_data fl body market code)

  -- `today` is what the calendar of the source gives.
  unfoldable pub get_minute_time_data : ℕ → ℕ → Bytes → Io (Session I W) (List (MinuteTimePrice fl))
  unfolding get_history_minute_time_data
  get_minute_time_data today market code = get_history_minute_time_data market code today

  unfoldable pub get_transaction_data : ℕ → Bytes → ℕ → ℕ → Io (Session I W) (List (TickData fl))
  get_transaction_data market code start count =
      ask_code k Pace.minute code (λ code_buf. ticks_packet market code_buf start count)
        (λ body.
          parse_transaction_data_with_coefficient fl body (get_security_coefficient fl market code))

  unfoldable pub get_history_transaction_data :
      ℕ → Bytes → ℕ → ℕ → ℕ → Io (Session I W) (List (TickData fl))
  get_history_transaction_data market code start count date =
      ask_code k Pace.minute code
        (λ code_buf. history_ticks_packet date market code_buf start count)
        (λ body.
          parse_history_transaction_data_with_coefficient fl body
            (get_security_coefficient fl market code))

  unfoldable pub get_finance_info : ℕ → Bytes → Io (Session I W) (FinanceInfo fl)
  get_finance_info market code =
      ask_code k Pace.default code (finance_packet market)
        (λ body. parse_finance_info fl body market code)

  unfoldable pub get_xdxr_info : ℕ → Bytes → Io (Session I W) (List (XdXrInfo fl))
  get_xdxr_info market code = ask_code k Pace.default code (xdxr_packet market) (parse_xdxr_info fl)

  -- One batch of at most 60 codes.
  unfoldable pub get_security_quotes_batch :
      List (ℕ × Bytes) → Io (Session I W) (List (SecurityQuote fl))
  get_security_quotes_batch all_stock = do
    body ← send_and_recv k (quotes_packet all_stock)
    quotes ← pure (parse_security_quotes fl body)
    return (filter_quotes_by_request fl all_stock quotes)

  unfoldable pub quotes_batches :
      List (List (ℕ × Bytes)) → Io (Session I W) (List (SecurityQuote fl))
  unfolding get_security_quotes_batch
  quotes_batches [] = return []
  quotes_batches (chunk ∷ rest) = do
    first ← get_security_quotes_batch chunk
    others ← quotes_batches rest
    return (first ++ others)

  unfoldable pub get_security_quotes : List (ℕ × Bytes) → Io (Session I W) (List (SecurityQuote fl))
  unfolding chunks check_codes quotes_batches
  get_security_quotes all_stock =
      pure (check_codes all_stock)
      >> (if leb (length all_stock) 60
          then get_security_quotes_batch all_stock
          else quotes_batches (chunks (length all_stock) all_stock))

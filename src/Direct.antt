-- ===== src/Direct.antt =====
-- `TdxDirectClient` of src/net/direct_client.rs: no pool and no retries, a new connection for every
-- request. The codes are encoded without the strict check.
pub mod Codes
pub mod Bars
use tdxrs.Base.{ℕ, Bool, true, false, List, [], ◌∷◌, ◌++◌, if◌then◌else◌, leb, ◌==◌, length}
use tdxrs.Errors.{Outcome, ok, err, panic}
use tdxrs.Bytes.{Bytes}
use tdxrs.Floats.{Floats}
use tdxrs.Io.{Io, ◌>>=◌, ◌>>◌, return, throw, pure, settle}
use tdxrs.Net.{
  Sockets, Net, Timeout, open_connection, perform_handshake, send, read_response_raw,
  decompress_zlib,
}
use tdxrs.Pool.Key.{Server}
use tdxrs.Requests.{code_bytes, build_security_bars_packet, build_index_bars_packet}
use tdxrs.Securities.{get_security_coefficient}
use tdxrs.Bars.{IndexBar, parse_index_bars}
use tdxrs.Minutes.{MinuteTimePrice, parse_history_minute_time_data}
use tdxrs.Ticks.{
  TickData, parse_transaction_data_with_coefficient,
  parse_history_transaction_data_with_coefficient,
}
use tdxrs.Events.{XdXrInfo, parse_xdxr_info}
use tdxrs.Finance.{FinanceInfo, parse_finance_info}
use tdxrs.Listing.{BlockInfoMeta, parse_security_count, parse_block_info_meta, parse_block_info}
use tdxrs.Quotes.{SecurityQuote, parse_security_quotes, filter_quotes_by_request}
use tdxrs.Client.Exchange.{empty_response}
use tdxrs.Client.Packets.{
  quotes_packet, list_packet, count_packet, history_minutes_packet, ticks_packet,
  history_ticks_packet, finance_packet, xdxr_packet, block_meta_packet, block_packet,
}
use tdxrs.Client.Paging.{get_all_chunks}
use tdxrs.Client.Calls.{check_not_block_code}
use tdxrs.Client.Calls.Data.{chunks}

pub record DirectClient : Type 0 where
  pub server : Server
  pub timeout : Timeout
  pub fq_context_tier : ℕ

unfoldable pub new : Server → Timeout → DirectClient
new server timeout = record { server = server; timeout = timeout; fq_context_tier = 1 }

unfoldable pub set_server : Server → DirectClient → DirectClient
set_server server c = record c { server = server }

unfoldable pub set_timeout : Timeout → DirectClient → DirectClient
set_timeout timeout c = record c { timeout = timeout }

module _ {W : Type 0} (k : Sockets W) (c : DirectClient) where
  unfoldable pub send_and_recv : Bytes → Io (Net W) Bytes
  send_and_recv packet = do
    conn ← open_connection k c.server c.timeout
    perform_handshake k conn
    send k conn packet
    (header, body) ← read_response_raw k conn
    if length body == 0
        then throw empty_response
        else if header.zip_size == header.unzip_size
        then return body
        else pure (decompress_zlib k body)

  -- A request and the parser on what came.
  abbrev pub ask : {A : Type 0} → Bytes → (Bytes → Outcome A) → Io (Net W) A
  ask packet parse = do body ← send_and_recv packet; pure (parse body)

  unfoldable pub get_security_list : {A : Type 0} → (Bytes → Outcome A) → ℕ → ℕ → Io (Net W) A
  unfolding send_and_recv
  get_security_list parse market start = ask (list_packet market start) parse

  unfoldable pub get_security_count : ℕ → Io (Net W) ℕ
  unfolding send_and_recv
  get_security_count market = ask (count_packet market) parse_security_count

  unfoldable pub get_block_info_meta : Bytes → Io (Net W) BlockInfoMeta
  unfolding send_and_recv
  get_block_info_meta block_file = ask (block_meta_packet block_file) parse_block_info_meta

  unfoldable pub get_block_info : Bytes → ℕ → ℕ → Io (Net W) Bytes
  unfolding send_and_recv
  get_block_info block_file start size = ask (block_packet block_file start size) parse_block_info

  unfoldable pub get_and_parse_block_info :
      {A : Type 0} → (Bytes → Outcome A) → Bytes → Io (Net W) A
  unfolding get_block_info_meta get_block_info
  get_and_parse_block_info parse_block block_file = get_block_info_meta block_file >>= λ meta.
      get_all_chunks (get_block_info block_file) meta.size >>= λ all_data.
      pure (parse_block all_data)

module _ {W : Type 0} (fl : Floats) (k : Sockets W) (c : DirectClient) where
  unfoldable pub get_history_minute_time_data :
      ℕ → Bytes → ℕ → Io (Net W) (List (MinuteTimePrice fl))
  get_history_minute_time_data market code date =
      ask k c (history_minutes_packet date market (code_bytes code))
        (λ body. parse_history_minute_time_data fl body market code)

  unfoldable pub get_transaction_data : ℕ → Bytes → ℕ → ℕ → Io (Net W) (List (TickData fl))
  get_transaction_data market code start count =
      ask k c (ticks_packet market (code_bytes code) start count) (λ body.
        parse_transaction_data_with_coefficient fl body (get_security_coefficient fl market code))

  unfoldable pub get_history_transaction_data :
      ℕ → Bytes → ℕ → ℕ → ℕ → Io (Net W) (List (TickData fl))
  get_history_transaction_data market code start count date =
      ask k c (history_ticks_packet date market (code_bytes code) start count) (λ body.
        parse_history_transaction_data_with_coefficient fl body
          (get_security_coefficient fl market code))

  unfoldable pub get_finance_info : ℕ → Bytes → Io (Net W) (FinanceInfo fl)
  get_finance_info market code =
      ask k c (finance_packet market (code_bytes code))
        (λ body. parse_finance_info fl body market code)

  unfoldable pub get_xdxr_info : ℕ → Bytes → Io (Net W) (List (XdXrInfo fl))
  get_xdxr_info market code = ask k c (xdxr_packet market (code_bytes code)) (parse_xdxr_info fl)

  unfoldable pub get_security_quotes_inner_batch :
      List (ℕ × Bytes) → Io (Net W) (List (SecurityQuote fl))
  get_security_quotes_inner_batch all_stock = do
    body ← send_and_recv k c (quotes_packet all_stock)
    quotes ← pure (parse_security_quotes fl body)
    return (filter_quotes_by_request fl all_stock quotes)

  unfoldable pub inner_batches : List (List (ℕ × Bytes)) → Io (Net W) (List (SecurityQuote fl))
  unfolding get_security_quotes_inner_batch
  inner_batches [] = return []
  inner_batches (chunk ∷ rest) = do
    first ← get_security_quotes_inner_batch chunk
    others ← inner_batches rest
    return (first ++ others)

  unfoldable pub get_security_quotes_inner : List (ℕ × Bytes) → Io (Net W) (List (SecurityQuote fl))
  unfolding chunks inner_batches
  get_security_quotes_inner all_stock =
      if leb (length all_stock) 60
      then get_security_quotes_inner_batch all_stock
      else inner_batches (chunks (length all_stock) all_stock)

  -- The check of every code in front of the first request.
  unfoldable pub check_none_is_block : List (ℕ × Bytes) → Io (Net W) (Unit {0})
  unfolding check_not_block_code
  check_none_is_block [] = return tt
  check_none_is_block ((market, code) ∷ rest) =
      pure (check_not_block_code code) >> check_none_is_block rest

  unfoldable pub get_security_quotes : List (ℕ × Bytes) → Io (Net W) (List (SecurityQuote fl))
  unfolding check_none_is_block get_security_quotes_inner
  get_security_quotes all_stock =
      check_none_is_block all_stock >> get_security_quotes_inner all_stock

  -- `today` is what the calendar of the source gives.
  unfoldable pub get_minute_time_data : ℕ → ℕ → Bytes → Io (Net W) (List (MinuteTimePrice fl))
  unfolding get_history_minute_time_data
  get_minute_time_data today market code = get_history_minute_time_data market code today

  unfoldable pub get_index_bars_inner :
      ℕ → ℕ → ℕ → Bytes → ℕ → ℕ → ℕ → Io (Net W) (List (IndexBar fl))
  get_index_bars_inner max_year category market code start count fq =
      ask k c (build_index_bars_packet category market code start count 0)
        (λ body. parse_index_bars fl max_year body category)

  unfoldable pub get_index_bars : ℕ → ℕ → ℕ → Bytes → ℕ → ℕ → ℕ → Io (Net W) (List (IndexBar fl))
  unfolding check_not_block_code get_index_bars_inner
  get_index_bars max_year category market code start count fq =
      pure (check_not_block_code code)
      >> get_index_bars_inner max_year category market code start count fq

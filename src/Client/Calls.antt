-- ===== src/Client/Calls.antt =====
-- The methods of src/net/client.rs that ask for data, on the request and the parsers. Codes are given
-- by their bytes; `max_year` is the year up to which the parsers take dates, from the calendar.
pub mod Data
pub mod Bars
pub mod Caches
pub mod Refusals
use tdxrs.Base.{
  ℕ, zero, suc, ◌+◌, ◌-◌, ◌*◌, ◌%◌, ◌^◌, ◌<◌, Bool, true, false, not, ◌&&◌, ◌||◌, Option, none,
  some, List, [], ◌∷◌, ◌++◌, if◌then◌else◌, ltb, leb, ◌==◌, length, take, drop, replicate, min, map,
}
use tdxrs.Errors.{Outcome, ok, err, panic, TdxError}
use tdxrs.Errors.Codes.{with_code}
use tdxrs.Bytes.{Bytes}
use tdxrs.Bytes.Layout.{le16, le32}
use tdxrs.Floats.{Floats}
use tdxrs.Text.{Text}
use tdxrs.Io.{Io, ◌>>=◌, ◌>>◌, return, throw, pure, settle}
use tdxrs.Net.{Sockets}
use tdxrs.Requests.{
  code_bytes, code_bytes_strict, build_security_bars_packet, build_index_bars_packet,
}
use tdxrs.Securities.{get_security_coefficient}
use tdxrs.Bars.{SecurityBar, IndexBar, parse_security_bars, parse_index_bars}
use tdxrs.Minutes.{MinuteTimePrice, parse_history_minute_time_data}
use tdxrs.Ticks.{
  TickData, parse_transaction_data_with_coefficient,
  parse_history_transaction_data_with_coefficient,
}
use tdxrs.Events.{XdXrInfo, parse_xdxr_info}
use tdxrs.Finance.{FinanceInfo, parse_finance_info}
use tdxrs.Listing.{
  SecurityInfo, BlockInfoMeta, parse_security_count, parse_security_list, parse_block_info_meta,
  parse_block_info,
}
use tdxrs.Quotes.{SecurityQuote, parse_security_quotes, filter_quotes_by_request}
use tdxrs.Adjust.{FqType, FqContextTier, pages, bar_key, date_key, adjust_security_bars}
use tdxrs.Client.{Client, Session, Cache, CacheEntry, update}
use tdxrs.Client.Exchange.{Pace, send_and_recv, send_and_recv_limited, reconnect_to_another_server}
use tdxrs.Client.Packets.{
  quotes_packet, list_packet, count_packet, history_minutes_packet, ticks_packet,
  history_ticks_packet, finance_packet, xdxr_packet, block_meta_packet, block_packet,
}
use tdxrs.Client.Paging.{get_bars_all, get_all_chunks}

abbrev pub block_code_refused : TdxError
block_code_refused = with_code 1101

-- `is_block_code`: `classify_code(code) == CodeType::Block`, which a code of 6 ASCII bytes that begins
-- with "88" is.
unfoldable pub is_ascii : Bytes → Bool
is_ascii [] = true
is_ascii (b ∷ bs) = ltb b 128 && is_ascii bs

unfoldable pub starts_with_88 : Bytes → Bool
starts_with_88 (a ∷ b ∷ _) = a == 56 && b == 56
starts_with_88 _ = false

unfoldable pub is_block_code : Bytes → Bool
is_block_code code = length code == 6 && (is_ascii code && starts_with_88 code)

unfoldable pub check_not_block_code : Bytes → Outcome (Unit {0})
check_not_block_code code = if is_block_code code then err block_code_refused else ok tt

-- A cache's entry for a market, while it is good.
unfoldable pub cached : {A : Type 0} → ℕ → ℕ → Cache A → Option A
cached now market [] = none
cached now market ((m, entry) ∷ xs) =
    if m == market
    then (if ltb now entry.expires_at then some entry.value else none)
    else cached now market xs

module _ {I W : Type 0} (k : Sockets W) where
  -- A request after a strict check of the code, and the parser on what came.
  abbrev pub ask_code :
      {A : Type 0} → Pace → Bytes → (Bytes → Bytes) → (Bytes → Outcome A) → Io (Session I W) A
  ask_code pace code packet parse = do
    code_buf ← pure (code_bytes_strict code)
    body ← send_and_recv_limited k pace (packet code_buf)
    pure (parse body)

  abbrev pub ask : {A : Type 0} → Bytes → (Bytes → Outcome A) → Io (Session I W) A
  ask packet parse = do body ← send_and_recv k packet; pure (parse body)

  -- The requests for bars of a day or more that come back empty are sent again, at most twice more,
  -- to another server.
  unfoldable pub bars_attempts :
      {A : Type 0} → ℕ → Bool → Bytes → (Bytes → Outcome (List A)) → Io (Session I W) (List A)
  bars_attempts zero retry_empty packet parse s = (s, ok [])
  bars_attempts (suc left) retry_empty packet parse s =
      (send_and_recv_limited k Pace.daily packet >>= λ body. pure (parse body) >>= λ parsed.
      elim parsed [
        | b ∷ bs ↦ return (b ∷ bs)
        | [] ↦
            if retry_empty && ltb 0 left
            then (reconnect_to_another_server k >>= λ _.
                bars_attempts left retry_empty packet parse)
            else return []
      ])
        s

  -- `cache.insert` with the time to live; the clock is read again after the answer.
  unfoldable pub keep_count : ℕ → ℕ → Io (Session I W) ℕ
  keep_count market count s =
      let c = s.client in
      let entry : CacheEntry ℕ = record {
        value = count;
        expires_at = k.now s.net.world + c.cache_ttl;
      } in
      (record s { client = record c { count_cache = (market, entry) ∷ c.count_cache } }, ok count)

  unfoldable pub keep_list : ℕ → List I → Io (Session I W) (List I)
  keep_list market infos s =
      let c = s.client in
      let entry : CacheEntry (List I) = record {
        value = infos;
        expires_at = k.now s.net.world + c.cache_ttl;
      } in
      (record s { client = record c { list_cache = (market, entry) ∷ c.list_cache } }, ok infos)

  unfoldable pub get_security_count : ℕ → Io (Session I W) ℕ
  unfolding cached keep_count
  get_security_count market s = elim (cached (k.now s.net.world) market s.client.count_cache) [
    | some count ↦ (s, ok count)
    | none ↦ (ask (count_packet market) parse_security_count >>= keep_count market) s
  ]

  -- Only the list from the start is cached.
  unfoldable pub get_security_list : (Bytes → Outcome (List I)) → ℕ → ℕ → Io (Session I W) (List I)
  unfolding cached keep_list
  get_security_list parse market zero s =
      elim (cached (k.now s.net.world) market s.client.list_cache) [
        | some infos ↦ (s, ok infos)
        | none ↦ (ask (list_packet market 0) parse >>= keep_list market) s
      ]
  get_security_list parse market (suc start) s = ask (list_packet market (suc start)) parse s

  unfoldable pub get_block_info_meta : Bytes → Io (Session I W) BlockInfoMeta
  get_block_info_meta block_file = ask (block_meta_packet block_file) parse_block_info_meta

  unfoldable pub get_block_info : Bytes → ℕ → ℕ → Io (Session I W) Bytes
  get_block_info block_file start size = ask (block_packet block_file start size) parse_block_info

  -- `get_and_parse_block_info`, `parse_block` being the reader of the file.
  unfoldable pub get_and_parse_block_info :
      {A : Type 0} → (Bytes → Outcome A) → Bytes → Io (Session I W) A
  unfolding get_block_info_meta get_block_info
  get_and_parse_block_info parse_block block_file = get_block_info_meta block_file >>= λ meta.
      get_all_chunks (get_block_info block_file) meta.size >>= λ data_. pure (parse_block data_)

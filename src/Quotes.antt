-- ===== src/Quotes.antt =====
-- `format_servertime`, `filter_quotes_by_request` and `parse_security_quotes` of
-- src/protocol/parsers.rs. Sums of prices wrap around as in a release build.
pub mod Servertime
pub mod Width
pub mod Any
pub mod Filter
use tdxrs.Base.{
  ℕ, ◌+◌, ◌-◌, ◌%◌, ◌^◌, ◌≤◌, Bool, true, false, ◌&&◌, ◌||◌, not, Option, none, some, List, [], ◌∷◌,
  ◌++◌, if◌then◌else◌, ltb, leb, ◌==◌, length, take, drop,
}
use tdxrs.Base.Int.{ℤ, wrap64, ◌+ℤ◌, pattern64}
use tdxrs.Errors.{Outcome, ok, err, panic, ◌>>=◌, ◌>>◌, fail_if, index, slice}
use tdxrs.Errors.Codes.{response_length_mismatch}
use tdxrs.Bytes.{Bytes, read_u16, read_u32, byte}
use tdxrs.Price.{get_price}
use tdxrs.Floats.{Floats}
use tdxrs.Volume.{get_volume}
use tdxrs.Text.{Text, text_eq, trim_nul}
use tdxrs.Text.Utf8.{from_utf8_lossy}
use tdxrs.Loop.{collect_checked}
use tdxrs.Securities.{get_security_coefficient}
use tdxrs.Ticks.{as_u32}
use tdxrs.Quotes.Servertime.{format_servertime}

abbrev pub same_key : ℕ × Text → ℕ × Text → Bool
same_key (m, c) (m', c') = m == m' && text_eq c c'

unfoldable pub has : ℕ × Text → List (ℕ × Text) → Bool
has k [] = false
has k (x ∷ xs) = same_key k x || has k xs

unfoldable pub remove : ℕ × Text → List (ℕ × Text) → List (ℕ × Text)
remove k [] = []
remove k (x ∷ xs) = if same_key k x then remove k xs else x ∷ remove k xs

-- `i16::from_le_bytes(..) as u32`: the sign is extended.
unfoldable pub signed16_as_u32 : ℕ → ℕ
signed16_as_u32 w = if ltb w (2 ^ 15) then w else w + 2 ^ 32 - 2 ^ 16

module _ (fl : Floats) where
  open fl use {F64, of_int, mul}

  -- One of the five price levels: `bid1`, `ask1`, `bid_vol1`, `ask_vol1` and so on.
  pub record Level : Type 0 where
    pub bid : F64
    pub ask : F64
    pub bid_vol : F64
    pub ask_vol : F64

  pub record SecurityQuote : Type 0 where
    pub market : ℕ
    pub code : Text
    pub active1 : ℕ
    pub price : F64
    pub last_close : F64
    pub opening : F64
    pub high : F64
    pub low : F64
    pub servertime : Text
    pub vol : F64
    pub cur_vol : F64
    pub amount : F64
    pub s_vol : F64
    pub b_vol : F64
    pub level1 : Level
    pub level2 : Level
    pub level3 : Level
    pub level4 : Level
    pub level5 : Level
    pub reversed_bytes0 : ℕ
    pub reversed_bytes1 : ℕ
    pub reversed_bytes2 : ℕ
    pub reversed_bytes3 : ℕ
    pub reversed_bytes4 : ℕ
    pub reversed_bytes5 : ℕ
    pub reversed_bytes6 : ℕ
    pub reversed_bytes7 : ℕ
    pub reversed_bytes8 : ℕ
    pub reversed_bytes9 : ℕ
    pub active2 : ℕ

  -- Four integers in a row.
  pub record Four : Type 0 where
    pub first : ℤ
    pub second : ℤ
    pub third : ℤ
    pub fourth : ℤ

  unfoldable pub read_four : Bytes → ℕ → Four × ℕ
  read_four body p =
      let (first, p1) = get_price body p in
      let (second, p2) = get_price body p1 in
      let (third, p3) = get_price body p2 in
      let (fourth, p4) = get_price body p3 in
      (record { first = first; second = second; third = third; fourth = fourth }, p4)

  -- `((price_raw + diff) as f64) * coefficient`.
  abbrev pub price_of : F64 → ℤ → ℤ → F64
  price_of coefficient price_raw diff = mul (of_int (wrap64 (price_raw +ℤ diff))) coefficient

  -- One round of `for i in 0..5`.
  unfoldable pub read_level : F64 → ℤ → Bytes → ℕ → Level × ℕ
  read_level coefficient price_raw body p =
      let (v, p1) = read_four body p in
      (
        record {
          bid = price_of coefficient price_raw v.first;
          ask = price_of coefficient price_raw v.second;
          bid_vol = of_int v.third;
          ask_vol = of_int v.fourth;
        },
        p1,
      )

  -- A record behind its bounds check, its market byte and its six code bytes.
  unfoldable pub read_quote : Bytes → ℕ → ℕ → Bytes → Option (SecurityQuote × ℕ)
  read_quote body p market code_bytes =
      let code = trim_nul (from_utf8_lossy code_bytes) in
      let coefficient = get_security_coefficient fl market code in
      let (price_raw, p0) = get_price body (p + 9) in
      -- The differences of the last close, the open, the high and the low.
      let (diffs, p1) = read_four body p0 in
      -- `reversed_bytes0`, `reversed_bytes1`, `vol`, `cur_vol`.
      let (turnover, p2) = read_four body p1 in
      -- Behind the amount: `s_vol`, `b_vol`, `reversed_bytes2`, `reversed_bytes3`.
      let (sides, p3) = read_four body (p2 + 4) in
      let (level1, q1) = read_level coefficient price_raw body p3 in
      let (level2, q2) = read_level coefficient price_raw body q1 in
      let (level3, q3) = read_level coefficient price_raw body q2 in
      let (level4, q4) = read_level coefficient price_raw body q3 in
      let (level5, q5) = read_level coefficient price_raw body q4 in
      -- Behind `reversed_bytes4`: `reversed_bytes5` to `reversed_bytes8`.
      let (rest, p4) = read_four body (q5 + 2) in
      if ltb (length body) (p4 + 2)
      then none
      else some (
        record {
          market = market;
          code = code;
          active1 = read_u16 body (p + 7);
          price = mul (of_int price_raw) coefficient;
          last_close = price_of coefficient price_raw diffs.first;
          opening = price_of coefficient price_raw diffs.second;
          high = price_of coefficient price_raw diffs.third;
          low = price_of coefficient price_raw diffs.fourth;
          servertime = format_servertime fl (pattern64 turnover.first);
          vol = of_int turnover.third;
          cur_vol = of_int turnover.fourth;
          amount = get_volume fl (read_u32 body p2);
          s_vol = of_int sides.first;
          b_vol = of_int sides.second;
          level1 = level1;
          level2 = level2;
          level3 = level3;
          level4 = level4;
          level5 = level5;
          reversed_bytes0 = as_u32 turnover.first;
          reversed_bytes1 = as_u32 turnover.second;
          reversed_bytes2 = as_u32 sides.third;
          reversed_bytes3 = as_u32 sides.fourth;
          reversed_bytes4 = read_u16 body q5;
          reversed_bytes5 = as_u32 rest.first;
          reversed_bytes6 = as_u32 rest.second;
          reversed_bytes7 = as_u32 rest.third;
          reversed_bytes8 = as_u32 rest.fourth;
          reversed_bytes9 = signed16_as_u32 (read_u16 body p4);
          active2 = read_u16 body (p4 + 2);
        },
        p4 + 4,
      )

  unfoldable pub quote_step : Bytes → ℕ → Outcome (Option (SecurityQuote × ℕ))
  quote_step body p =
      if ltb (length body) (p + 56)
      then ok none
      else index body p >>= (λ market.
        slice body (p + 1) (p + 7) >>= (λ code_bytes. ok (read_quote body p market code_bytes)))

  unfoldable pub parse_security_quotes : Bytes → Outcome (List SecurityQuote)
  parse_security_quotes body = do
    fail_if (ltb (length body) 4) response_length_mismatch
    collect_checked (read_u16 body 2) (quote_step body) 4

  -- What a quote is asked for by: market and code.
  abbrev pub key : SecurityQuote → ℕ × Text
  key q = (q.market, q.code)

  -- `allowed` is a set: `remove` deletes a key however often the list has it.
  unfoldable pub keep_allowed : List (ℕ × Text) → List SecurityQuote → List SecurityQuote
  keep_allowed allowed [] = []
  keep_allowed allowed (r ∷ rs) = elim (has (key r) allowed) [
    | true ↦ r ∷ keep_allowed (remove (key r) allowed) rs
    | false ↦ keep_allowed allowed rs
  ]

  unfoldable pub filter_quotes_by_request :
      List (ℕ × Text) → List SecurityQuote → List SecurityQuote
  filter_quotes_by_request requested records = keep_allowed requested records

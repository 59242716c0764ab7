-- ===== src/Tests/QuoteBodies.antt =====
-- A response of one quote, and two quotes of one stock of which one was asked for.
use tdxrs.Base.{
  ℕ, ◌+◌, ◌*◌, ◌/◌, ◌%◌, ◌<◌, ◌≡◌, ◌≤◌, ◌&&◌, List, [], ◌∷◌, length, replicate, arith, All,
}
use tdxrs.Errors.{ok}
use tdxrs.Bytes.{Bytes, IsByte, read_u16}
use tdxrs.Floats.{symbols}
use tdxrs.Text.{Text}
use tdxrs.Quotes.{SecurityQuote, Level, has, filter_quotes_by_request, parse_security_quotes}
use tdxrs.Text.{decimal}
use tdxrs.Quotes.Servertime.{clock, tail_second, fraction_second, format_servertime}
use tdxrs.Quotes.Width.{format_servertime_lem}
use tdxrs.Quotes.Any.{IsQuote, parse_security_quotes_valid}
use tdxrs.Quotes.Filter.{keys, AreDistinct, Stand, filter_quotes_by_request_lem}

-- Market 1, code 600519, and varints of one byte.
abbrev quote_body : Bytes
quote_body = 0 ∷ 0 ∷ 1 ∷ 0 ∷ 1 ∷ 54 ∷ 48 ∷ 48 ∷ 53 ∷ 49 ∷ 57 ∷ 7 ∷ 0 ∷ replicate 47 1

quote_body-IsByte : All IsByte quote_body
quote_body-IsByte = ground arith

parse_security_quotes_valid_example :
    (quotes : List (SecurityQuote symbols)) × (parse_security_quotes symbols quote_body ≡ ok quotes)
    × All (IsQuote symbols) quotes
    × (length quotes ≤ read_u16 quote_body 2)
    × (4 + 56 * length quotes ≤ 60)
parse_security_quotes_valid_example =
    (parse_security_quotes_valid symbols quote_body quote_body-IsByte).1 (omega arith)

abbrev nought : symbols.F64
nought = symbols.literal 0 0

abbrev no_level : Level symbols
no_level = record { bid = nought; ask = nought; bid_vol = nought; ask_vol = nought }

abbrev quote_of : ℕ → Text → SecurityQuote symbols
quote_of market code = record {
  market = market;
  code = code;
  active1 = 0;
  price = nought;
  last_close = nought;
  opening = nought;
  high = nought;
  low = nought;
  servertime = [];
  vol = nought;
  cur_vol = nought;
  amount = nought;
  s_vol = nought;
  b_vol = nought;
  level1 = no_level;
  level2 = no_level;
  level3 = no_level;
  level4 = no_level;
  level5 = no_level;
  reversed_bytes0 = 0;
  reversed_bytes1 = 0;
  reversed_bytes2 = 0;
  reversed_bytes3 = 0;
  reversed_bytes4 = 0;
  reversed_bytes5 = 0;
  reversed_bytes6 = 0;
  reversed_bytes7 = 0;
  reversed_bytes8 = 0;
  reversed_bytes9 = 0;
  active2 = 0;
}

abbrev asked : List (ℕ × Text)
asked = (1, 54 ∷ []) ∷ []

abbrev answers : List (SecurityQuote symbols)
answers = quote_of 1 (54 ∷ []) ∷ quote_of 1 (54 ∷ []) ∷ quote_of 0 (54 ∷ []) ∷ []

filter_quotes_by_request_example :
    let kept = filter_quotes_by_request symbols asked answers in
    Stand symbols kept answers
    × ((k : ℕ × Text) → has k (keys symbols kept) ≡ (has k asked && has k (keys symbols answers)))
    × AreDistinct symbols (keys symbols kept)
filter_quotes_by_request_example = filter_quotes_by_request_lem symbols asked answers

-- 15298827 is 15:29 and a second of 8827, as the comment of the source has it.
format_servertime_example :
    (298827 / 10000 < 60
      → format_servertime symbols 15298827
        ≡ clock symbols (decimal 15) (298827 / 10000) (tail_second symbols (298827 % 10000)))
    × (60 ≤ 298827 / 10000
        → format_servertime symbols 15298827
          ≡ clock symbols (decimal 15) (298827 * 60 / 1000000) (fraction_second symbols 298827))
format_servertime_example =
    format_servertime_lem symbols 15 298827 (omega arith) (omega arith) (omega arith)

-- ===== src/Tests/BarBodies.antt =====
-- A day of one stock and one index, and bodies of bars, points and no use.
use tdxrs.Base.{◌≡◌, ◌≤◌, refl, true, [], ◌∷◌, ◌++◌, length, map, reverse, arith, All, none}
use tdxrs.Base.Int.{ℤ, ◌-ℤ◌}
use tdxrs.Errors.{ok}
use tdxrs.Bytes.{Bytes, IsByte}
use tdxrs.Bytes.Layout.{le16}
use tdxrs.Floats.{symbols}
use tdxrs.Dates.{DateTime, has_time, date_in_range}
use tdxrs.Loop.{collect}
use tdxrs.Bars.{parse_security_bars, parse_index_bars}
use tdxrs.Bars.Encoded.{Quotation, IsMoment, IsWritable, meant}
use tdxrs.Bars.RoundTrip.{encode_bars, parse_security_bars_lem}
use tdxrs.Bars.IndexRoundTrip.{
  IndexQuotation, encode_index_bars, kept_bars, meant_index, parse_index_bars_lem,
}
use tdxrs.Minutes.{Cursor, from_start, history_step, parse_history_minute_time_data}
use tdxrs.Minutes.Points.{times, times_from, parse_history_minute_time_data_total}
use tdxrs.Securities.{get_security_coefficient}

abbrev friday : DateTime
friday = record { date = record { year = 2024; month = 5; day = 17 }; hour = 0; minute = 0 }

abbrev pub session : Quotation
session = record {
  at_time = friday;
  opening = ℤ.pos 10000;
  closing = ℤ.pos 10100;
  highest = ℤ.pos 10200;
  lowest = ℤ.pos 9900;
  vol_code = 1234;
  amount_code = 0;
}

pub session-IsMoment : IsMoment 9 friday
unfolding has_time
session-IsMoment = (
  record { month_fits = omega arith; day_fits = omega arith },
  λ e. (omega arith, omega arith, omega arith, omega arith),
  λ e. (omega arith, refl, refl),
)

pub session-IsWritable : IsWritable (ℤ.pos 0) session
session-IsWritable =
    unfold ◌-ℤ◌ in
    record {
      opening_fits = (omega arith, omega arith);
      closing_fits = (omega arith, omega arith);
      highest_fits = (omega arith, omega arith);
      lowest_fits = (omega arith, omega arith);
      opening_diff = (omega arith, omega arith);
      closing_diff = (omega arith, omega arith);
      highest_diff = (omega arith, omega arith);
      lowest_diff = (omega arith, omega arith);
      vol_fits = omega arith;
      amount_fits = omega arith;
    }

pub session_in_range : date_in_range 2027 friday.date ≡ true
unfolding date_in_range
session_in_range = refl

parse_security_bars_example :
    parse_security_bars symbols 2027 (le16 1 ++ encode_bars 9 (ℤ.pos 0) (session ∷ [])) 9
    ≡ ok (meant symbols 9 session ∷ [])
parse_security_bars_example =
    parse_security_bars_lem symbols 2027 9 (session ∷ []) (omega arith)
      (session-IsMoment, session_in_range, session-IsWritable, tt)

abbrev index_session : IndexQuotation
index_session = record { quotation = session; up = 1500; down = 300 }

-- The only bar has 22 bytes, so none is read.
parse_index_bars_example :
    parse_index_bars symbols 2027 (le16 1 ++ encode_index_bars 9 (ℤ.pos 0) (index_session ∷ [])) 9
    ≡ ok (map (meant_index symbols 2027 9) (kept_bars 9 (ℤ.pos 0) (index_session ∷ [])))
parse_index_bars_example =
    parse_index_bars_lem symbols 2027 9 (index_session ∷ []) (omega arith)
      (session-IsMoment, session_in_range, session-IsWritable, omega arith, omega arith, tt)

-- One bar of the 17th of May 2024 is declared and there: 20240517 = 0x0134D885.
abbrev bar_body : Bytes
bar_body =
    1 ∷ 0 ∷ 0x85 ∷ 0xD8 ∷ 0x34 ∷ 0x01 ∷ 1 ∷ 2 ∷ 3 ∷ 0x41 ∷ 0 ∷ 0 ∷ 0 ∷ 1 ∷ 0 ∷ 0 ∷ 0 ∷ 1 ∷ 0 ∷ 0 ∷ 0
    ∷ 0 ∷ 0 ∷ 0 ∷ 0 ∷ 0 ∷ []

bar_body-IsByte : All IsByte bar_body
bar_body-IsByte = ground arith

parse_history_minute_time_data_total_example :
    let step = history_step symbols (get_security_coefficient symbols 1 []) bar_body in
    let points = collect 26 step (from_start symbols 6) in
    (parse_history_minute_time_data symbols bar_body 1 [] ≡ ok (reverse points))
    × (times symbols points ≡ times_from 0 (length points))
    × ((c : Cursor symbols) → step c ≡ none → 26 ≤ c.p)
parse_history_minute_time_data_total_example =
    parse_history_minute_time_data_total symbols bar_body 1 [] 26 bar_body-IsByte (omega arith)

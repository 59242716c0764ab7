-- ===== src/Dates.antt =====
-- The dates and times of src/constants.rs and src/protocol/parsers.rs: the packed formats, the
-- printed forms, and the clock of the minute data.
pub mod Packed
pub mod Clock
use tdxrs.Base.{
  ℕ, ◌+◌, ◌-◌, ◌*◌, ◌/◌, ◌%◌, ◌^◌, Bool, List, [], ◌∷◌, ◌++◌, ◌&&◌, ◌||◌, ltb, leb, ◌==◌,
  if◌then◌else◌,
}
use tdxrs.Bytes.{Bytes, read_u16, read_u32}
use tdxrs.Text.{Text, padded}

pub record Date : Type 0 where
  pub year : ℕ
  pub month : ℕ
  pub day : ℕ

abbrev pub from_packed : ℕ → Date
from_packed num = record {
  year = num / 2048 + 2004;
  month = num % 2048 / 100;
  day = num % 2048 % 100;
}

abbrev pub from_digits : ℕ → Date
from_digits num = record { year = num / 10000; month = num % 10000 / 100; day = num % 100 }

unfoldable pub decode_date : ℕ → Date
decode_date num = if ltb 100000 num then from_digits num else from_packed num

unfoldable pub decode_date_u16 : ℕ → Date
decode_date_u16 num = from_packed num

-- Minutes since midnight to (hour, minute).
unfoldable pub decode_time : ℕ → ℕ × ℕ
decode_time minutes = (minutes / 60, minutes % 60)

abbrev pub dash : ℕ
dash = 45

abbrev pub colon : ℕ
colon = 58

abbrev pub space : ℕ
space = 32

unfoldable pub format_date : ℕ → ℕ → ℕ → Text
format_date year month day = padded 4 year ++ (dash ∷ (padded 2 month ++ (dash ∷ padded 2 day)))

-- `{:02}:{:02}`.
unfoldable pub format_time : ℕ → ℕ → Text
format_time hour minute = padded 2 hour ++ (colon ∷ padded 2 minute)

unfoldable pub format_datetime : ℕ → ℕ → ℕ → ℕ → ℕ → Text
unfolding format_date format_time
format_datetime year month day hour minute =
    format_date year month day ++ (space ∷ format_time hour minute)

-- The year that `max_valid_year` computes from the seconds since 1970 and caches: every call in
-- one process gives the same. `as u32` wraps.
unfoldable pub max_valid_year : ℕ → ℕ
max_valid_year now = (now / 31556952 + 1970) % 2 ^ 32 + 10

-- The bar categories below 4, 7 and 8 carry a time of day.
unfoldable pub has_time : ℕ → Bool
has_time category = ltb category 4 || category == 7 || category == 8

pub record DateTime : Type 0 where
  pub date : Date
  pub open date use *
  pub hour : ℕ
  pub minute : ℕ

-- The date and time, and the position behind the four bytes.
unfoldable pub get_datetime : ℕ → Bytes → ℕ → DateTime × ℕ
unfolding has_time
get_datetime category buffer p =
    let minutes = read_u16 buffer (p + 2) in
    if has_time category
    then (
      record { date = from_packed (read_u16 buffer p); hour = minutes / 60; minute = minutes % 60 },
      p + 4,
    )
    else (record { date = from_digits (read_u32 buffer p); hour = 0; minute = 0 }, p + 4)

-- The check of both bar parsers, `max_year` being what `max_valid_year` gives.
unfoldable pub date_in_range : ℕ → Date → Bool
date_in_range max_year d =
    leb 1980 d.year
    && leb d.year max_year
    && leb 1 d.month
    && leb d.month 12
    && leb 1 d.day
    && leb d.day 31

-- The time of the `index`-th point of a day of minute data.
unfoldable pub minute_total : ℕ → ℕ
minute_total index = if ltb index 120 then 9 * 60 + 31 + index else 13 * 60 + 1 + (index - 120)

unfoldable pub minute_time_from_index : ℕ → Text
unfolding minute_total format_time
minute_time_from_index index = format_time (minute_total index / 60) (minute_total index % 60)

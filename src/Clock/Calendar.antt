-- ===== src/Clock/Calendar.antt =====
-- `today_yyyymmdd` gives the day of the Gregorian calendar.
use tdxrs.Base.{
  if◌then◌else◌, ◌==◌, ◌||◌, ℕ, zero, suc, ◌+◌, ◌-◌, ◌*◌, ◌/◌, ◌%◌, ◌^◌, ◌≤◌, ◌<◌, ◌≡◌, refl, ap,
  ◌∙◌, List, [], ◌∷◌, ltb, arith, take, get_or, length, Bool-cases, inl, inr,
}
use tdxrs.Dates.{Date, from_digits}
use tdxrs.Clock.{is_leap, days_in_year, year_loop, month_days, month_loop, today_yyyymmdd}

-- The days in front of the first day of a year, counted from the year 1 by the usual formula.
abbrev pub days_before_year : ℕ → ℕ
days_before_year y = 365 * (y - 1) + (y - 1) / 4 - (y - 1) / 100 + (y - 1) / 400

abbrev total : List ℕ → ℕ
total [] = 0
total (x ∷ xs) = x + total xs

next_year : (y : ℕ) → 1 ≤ y → days_before_year (y + 1) ≡ days_before_year y + days_in_year y
unfolding days_in_year
next_year y h = ground arith

year_is_long : (y : ℕ) → 365 ≤ days_in_year y
unfolding days_in_year
year_is_long y = ground arith

-- What a year and a rest of days have to do with a number of days.
abbrev IsYear : ℕ → ℕ → ℕ × ℕ → Type 0
IsYear y remaining (y', r') =
    (days_before_year y' + r' ≡ days_before_year y + remaining)
    × (r' < days_in_year y')
    × (y ≤ y')
    × (365 * (y' - y) + r' ≤ remaining)

year_loop-IsYear :
    (fuel y remaining : ℕ)
    → 1 ≤ y
    → remaining ≤ fuel
    → IsYear y remaining (year_loop fuel y remaining)
unfolding year_loop
year_loop-IsYear zero y remaining hy h = omega (arith, year_is_long y)
year_loop-IsYear (suc fuel) y remaining hy h = elim (Bool-cases (ltb remaining (days_in_year y))) [
  | inl e ↦ rw e (refl, ground arith, omega arith, omega arith)
  | inr e ↦ rw e (
      let left : days_in_year y ≤ remaining = ground arith in
      let long = year_is_long y in
      let (sum, small, later, fits) =
        year_loop-IsYear fuel (y + 1) (remaining - days_in_year y) (omega arith) (omega arith) in
      (omega (arith, next_year y hy), small, omega arith, omega arith))
]

-- The month with index `k` behind the first ones, and the rest of days in it.
abbrev IsMonth : List ℕ → ℕ → ℕ → ℕ × ℕ → Type 0
IsMonth ds m remaining (m', r') =
    (k : ℕ) × (m' ≡ m + k)
    × (k < length ds)
    × (total (take k ds) + r' ≡ remaining)
    × (r' < get_or ds k 0)

month_loop-IsMonth :
    (ds : List ℕ) (m remaining : ℕ)
    → remaining < total ds
    → IsMonth ds m remaining (month_loop ds m remaining)
unfolding month_loop
month_loop-IsMonth [] m remaining h = absurd (omega arith)
month_loop-IsMonth (d ∷ ds) m remaining h = elim (Bool-cases (ltb remaining d)) [
  | inl e ↦ rw e (0, omega arith, omega arith, omega arith, ground arith)
  | inr e ↦ rw e (
      let left : d ≤ remaining = ground arith in
      let (k, index, inside, sum, small) =
        month_loop-IsMonth ds (m + 1) (remaining - d) (omega arith) in
      (suc k, omega arith, omega arith, omega arith, small))
]

-- The lengths of the months of a year.
abbrev months_of : ℕ → List ℕ
months_of y = month_days (is_leap y)

total_months : (y : ℕ) → total (months_of y) ≡ days_in_year y
unfolding month_days days_in_year
total_months y = elim (Bool-cases (is_leap y)) [ inl e ↦ rw e refl | inr e ↦ rw e refl ]

month_is_short : (y k : ℕ) → get_or (months_of y) k 0 ≤ 31
unfolding month_days
month_is_short y k = ground arith

twelve_months : (y : ℕ) → length (months_of y) ≡ 12
unfolding month_days
twelve_months y = refl

-- The rule of the Gregorian calendar: the days of a month of a year.
february : ℕ → ℕ
february y = if y % 400 == 0 then 29 else if y % 100 == 0 then 28 else if y % 4 == 0 then 29 else 28

pub month_length : ℕ → ℕ → ℕ
unfolding february
month_length y m =
    if m == 2 then february y else if m == 4 || m == 6 || m == 9 || m == 11 then 30 else 31

-- The days of the first months of a year.
pub days_before_month : ℕ → ℕ → ℕ
days_before_month y zero = 0
days_before_month y (suc k) = days_before_month y k + month_length y (suc k)

-- The list of the source has these lengths.
months_are_right : (y k : ℕ) → k < 12 → get_or (months_of y) k 0 ≡ month_length y (suc k)
unfolding month_days month_length
months_are_right y k h = ground arith

total_take :
    (ds : List ℕ) (k : ℕ)
    → k < length ds
    → total (take (suc k) ds) ≡ total (take k ds) + get_or ds k 0
total_take [] k h = absurd (omega arith)
total_take (d ∷ ds) zero h = omega arith
total_take (d ∷ ds) (suc k) h = omega (arith, total_take ds k (omega arith))

total_months_lem : (y k : ℕ) → k ≤ 12 → total (take k (months_of y)) ≡ days_before_month y k
unfolding days_before_month
total_months_lem y zero h = refl
total_months_lem y (suc k) h = omega (
  arith,
  total_take (months_of y) k (omega (arith, twelve_months y)),
  months_are_right y k (omega arith),
  total_months_lem y k (omega arith),
)

-- The number of a day of the calendar, counted from the first of January of the year 1.
abbrev pub day_number : Date → ℕ
day_number t = days_before_year t.year + days_before_month t.year (t.month - 1) + (t.day - 1)

-- A day that the calendar has.
pub record IsDay (t : Date) : Type 0 where
  pub month_low : 1 ≤ t.month
  pub month_high : t.month ≤ 12
  pub day_low : 1 ≤ t.day
  pub day_high : t.day ≤ month_length t.year t.month

-- The rest of a loop over the months is a day of the month that it ends in.
fits_month :
    (y k m r : ℕ) → m ≡ k → k < 12 → r < get_or (months_of y) k 0 → r + 1 ≤ month_length y (m + 1)
fits_month y k m r e h s =
    let same : month_length y (m + 1) ≡ month_length y (suc k) =
      ap (month_length y) (omega arith) in
    omega (arith, same, months_are_right y k h)

numbered :
    (y k m r n : ℕ)
    → m ≡ k
    → k < 12
    → days_before_year y + total (take k (months_of y)) + r ≡ n
    → day_number (record { year = y; month = m + 1; day = r + 1 }) ≡ n
numbered y k m r n e h sum =
    let same : days_before_month y (m + 1 - 1) ≡ days_before_month y k =
      ap (days_before_month y) (omega arith) in
    omega (arith, same, total_months_lem y k (omega arith))

from_digits_lem :
    (y m d : ℕ)
    → m < 100
    → d < 100
    → from_digits (y * 10000 + m * 100 + d) ≡ record { year = y; month = m; day = d }
from_digits_lem y m d hm hd = ground arith

abbrev IsNumbered : ℕ → Date → Type 0
IsNumbered n t = IsDay t × (day_number t ≡ n)

same_day : (n : ℕ) (t t' : Date) → t ≡ t' → IsNumbered n t' → IsNumbered n t
same_day n t t' e h = rw e h

-- At any second before 2 ^ 36, in the year 4147, `today_yyyymmdd` prints as eight digits a day of the
-- Gregorian calendar, and the day that is as many days behind the first of January 1970 as have
-- passed in Beijing, eight hours ahead.
pub today_yyyymmdd_lem :
    (now : ℕ)
    → now < 2 ^ 36
    → let today = from_digits (today_yyyymmdd now) in
      IsDay today
      × (day_number today
          ≡ day_number (record { year = 1970; month = 1; day = 1 }) + (now + 8 * 3600) / 86400)
unfolding today_yyyymmdd days_before_month
today_yyyymmdd_lem now h =
    let days = (now + 8 * 3600) % 2 ^ 64 / 86400 in
    let (y, in_year) = year_loop days 1970 days in
    let (sum, small, later, fits) = year_loop-IsYear days 1970 days (omega arith) (omega arith) in
    let (m, in_month) = month_loop (months_of y) 0 in_year in
    let (k, index, inside, rest, short) =
      month_loop-IsMonth (months_of y) 0 in_year (omega (arith, total_months y)) in
    let m_is_k : m ≡ k = omega arith in
    let twelve = twelve_months y in
    let at_most = month_is_short y k in
    let packed : (y * 10000 + (m + 1) * 100 + (in_month + 1)) % 2 ^ 32
        ≡ y * 10000 + (m + 1) * 100 + (in_month + 1) =
      omega arith in
    let day : Date = record { year = y; month = m + 1; day = in_month + 1 } in
    let same : from_digits (today_yyyymmdd now) ≡ day =
      ap from_digits packed
      ∙ from_digits_lem y (m + 1) (in_month + 1) (omega arith) (omega arith) in
    same_day (719162 + (now + 8 * 3600) / 86400) (from_digits (today_yyyymmdd now)) day same (
      record {
        month_low = omega arith;
        month_high = omega arith;
        day_low = omega arith;
        day_high = fits_month y k m in_month m_is_k (omega arith) short;
      },
      numbered y k m in_month _ m_is_k (omega arith) (omega arith),
    )

-- ===== src/Clock.antt =====
-- `detect_trading_phase` and `today_yyyymmdd` of src/net/utils.rs, as functions of the seconds since
-- the epoch, which the source takes from the system clock.
pub mod Calendar
pub mod Phase
use tdxrs.Base.{
  ℕ, zero, suc, ◌+◌, ◌-◌, ◌*◌, ◌/◌, ◌%◌, ◌^◌, Bool, ◌&&◌, ◌||◌, not, List, [], ◌∷◌, if◌then◌else◌,
  ltb, leb, ◌==◌,
}

pub data TradingPhase : Type 0 where
  trading pre_post closed : TradingPhase

unfoldable pub detect_trading_phase : ℕ → TradingPhase
detect_trading_phase now =
    let day_sec = now % 86400 in
    let week_day = (now / 86400 + 4) % 7 in
    if week_day == 0 || week_day == 6
    then closed
    else if leb 5400 day_sec && leb day_sec 25200
    then trading
    else pre_post

abbrev pub is_leap : ℕ → Bool
is_leap y = y % 4 == 0 && (not (y % 100 == 0) || y % 400 == 0)

unfoldable pub days_in_year : ℕ → ℕ
days_in_year y = if is_leap y then 366 else 365

-- The loop over the years; every round takes a day at least, so `remaining` is fuel enough.
unfoldable pub year_loop : ℕ → ℕ → ℕ → ℕ × ℕ
year_loop zero y remaining = (y, remaining)
year_loop (suc fuel) y remaining =
    let later = year_loop fuel (y + 1) (remaining - days_in_year y) in
    if ltb remaining (days_in_year y) then (y, remaining) else later

unfoldable pub month_days : Bool → List ℕ
month_days leap =
    31 ∷ (if leap then 29 else 28) ∷ 31 ∷ 30 ∷ 31 ∷ 30 ∷ 31 ∷ 31 ∷ 30 ∷ 31 ∷ 30 ∷ 31 ∷ []

unfoldable pub month_loop : List ℕ → ℕ → ℕ → ℕ × ℕ
month_loop [] m remaining = (m, remaining)
month_loop (d ∷ ds) m remaining =
    let later = month_loop ds (m + 1) (remaining - d) in
    if ltb remaining d then (m, remaining) else later

-- The packed date; the products and sums are those of `u32`.
unfoldable pub today_yyyymmdd : ℕ → ℕ
today_yyyymmdd now =
    let days = (now + 8 * 3600) % 2 ^ 64 / 86400 in
    let (y, in_year) = year_loop days 1970 days in
    let (m, in_month) = month_loop (month_days (is_leap y)) 0 in_year in
    (y * 10000 + (m + 1) * 100 + (in_month + 1)) % 2 ^ 32

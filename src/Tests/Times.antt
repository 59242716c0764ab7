-- ===== src/Tests/Times.antt =====
-- Moments of the clock.
use tdxrs.Base.{◌+◌, ◌*◌, ◌/◌, ◌≡◌, ◌≤◌, arith, ◌↔◌}
use tdxrs.Dates.{from_digits}
use tdxrs.Clock.{TradingPhase, detect_trading_phase, today_yyyymmdd}
use tdxrs.Clock.Calendar.{IsDay, day_number, today_yyyymmdd_lem}
use tdxrs.Clock.Phase.{beijing_week_day, beijing_second, detect_trading_phase_lem}

-- 2024-02-29 16:00:00 UTC is the first of March in Beijing.
today_yyyymmdd_example :
    let today = from_digits (today_yyyymmdd 1709222400) in
    IsDay today
    × (day_number today
        ≡ day_number (record { year = 1970; month = 1; day = 1 }) + (1709222400 + 8 * 3600) / 86400)
today_yyyymmdd_example = today_yyyymmdd_lem 1709222400 (omega arith)

detect_trading_phase_example : (detect_trading_phase 1709222400 ≡ TradingPhase.trading) ↔ (
    (1 ≤ beijing_week_day 1709222400)
    × (beijing_week_day 1709222400 ≤ 5)
    × (9 * 3600 + 30 * 60 ≤ beijing_second 1709222400)
    × (beijing_second 1709222400 ≤ 15 * 3600))
detect_trading_phase_example = detect_trading_phase_lem 1709222400

-- ===== src/Clock/Phase.antt =====
-- The trading phase in Beijing time.
use tdxrs.Base.{ℕ, ◌+◌, ◌*◌, ◌/◌, ◌%◌, ◌≤◌, ◌≡◌, arith, ◌↔◌}
use tdxrs.Clock.{TradingPhase, detect_trading_phase}

-- Beijing is eight hours ahead; day 0 of the epoch was a Thursday, and Sunday is 0.
abbrev pub beijing_week_day : ℕ → ℕ
beijing_week_day now = ((now + 8 * 3600) / 86400 + 4) % 7

abbrev pub beijing_second : ℕ → ℕ
beijing_second now = (now + 8 * 3600) % 86400

-- The phase is `trading` exactly from Monday to Friday, from 9:30 to 15:00 in Beijing, both included.
pub detect_trading_phase_lem :
    (now : ℕ)
    → (detect_trading_phase now ≡ TradingPhase.trading) ↔ (
        (1 ≤ beijing_week_day now)
        × (beijing_week_day now ≤ 5)
        × (9 * 3600 + 30 * 60 ≤ beijing_second now)
        × (beijing_second now ≤ 15 * 3600))
unfolding detect_trading_phase
detect_trading_phase_lem now = (λ e. ground arith, λ e. ground arith)

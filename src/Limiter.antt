-- ===== src/Limiter.antt =====
-- `RateLimiter` of src/net/utils.rs. Intervals are in milliseconds, instants in nanoseconds. An
-- interval over the multiplier 1, 2 or 4 of a phase is rounded down, as it is in `f64` below 2 ^ 53.
pub mod Spacing
use tdxrs.Base.{
  ℕ, ◌+◌, ◌-◌, ◌*◌, ◌/◌, ◌<◌, Bool, true, false, Option, none, some, if◌then◌else◌, ltb, ◌==◌, not,
  min, max,
}
use tdxrs.Clock.{TradingPhase, detect_trading_phase}

pub record RateLimiter : Type 0 where
  pub enabled : Bool
  pub base_interval : ℕ
  pub min_interval : ℕ
  pub last_request : Option ℕ
  pub phase : TradingPhase

unfoldable pub new : ℕ → RateLimiter
new min_interval_ms = record {
  enabled = ltb 0 min_interval_ms;
  base_interval = min_interval_ms;
  min_interval = min_interval_ms;
  last_request = none;
  phase = TradingPhase.trading;
}

-- `PHASE_MULTIPLIER[phase].0`.
unfoldable pub multiplier : TradingPhase → ℕ
multiplier TradingPhase.trading = 1
multiplier TradingPhase.pre_post = 2
multiplier TradingPhase.closed = 4

-- `((base as f64 / multiplier) as u64).max(1)`.
unfoldable pub adjusted_interval : ℕ → TradingPhase → ℕ
adjusted_interval base_interval phase = max (base_interval / multiplier phase) 1

-- `MAX_RATE_LIMIT` is 200. A rate of 0 disables the limiter and changes nothing else.
unfoldable pub set_rps : ℕ → RateLimiter → RateLimiter
set_rps rps limiter =
    let base_interval = 1000 / min rps 200 in
    if rps == 0 then record limiter { enabled = false } else record limiter {
      enabled = true;
      base_interval = base_interval;
      min_interval = adjusted_interval base_interval limiter.phase;
    }

unfoldable pub set_enabled : Bool → RateLimiter → RateLimiter
set_enabled enabled limiter = record limiter { enabled = enabled }

unfoldable pub set_phase : TradingPhase → RateLimiter → RateLimiter
set_phase phase limiter = record limiter {
  min_interval = adjusted_interval limiter.base_interval phase;
  phase = phase;
}

unfoldable pub auto_detect_phase : ℕ → RateLimiter → RateLimiter
auto_detect_phase now limiter = set_phase (detect_trading_phase now) limiter

-- How long `wait` sleeps at `now`; `elapsed` saturates at 0.
unfoldable pub sleep_time : RateLimiter → ℕ → ℕ
sleep_time limiter now = elim limiter.last_request [
  | none ↦ 0
  | some last ↦
      if ltb (now - last) (limiter.min_interval * 1000000)
      then limiter.min_interval * 1000000 - (now - last)
      else 0
]

-- `wait`, which reads the clock again when it is awake.
unfoldable pub wait : RateLimiter → ℕ → RateLimiter
wait limiter awake =
    if not limiter.enabled then limiter else record limiter { last_request = some awake }

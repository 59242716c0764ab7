-- ===== src/Tests/Limits.antt =====
-- A limiter of 150 requests a second, called twice.
use tdxrs.Base.{◌+◌, ◌*◌, ◌≡◌, ◌≤◌, ◌<◌, refl, true, none, List, [], ◌∷◌, Pairwise, min, arith}
use tdxrs.Clock.{TradingPhase}
use tdxrs.Limiter.{RateLimiter, set_rps, wait, sleep_time}
use tdxrs.Limiter.Spacing.{Call, AreTimed, Apart, wait-Apart, set_rps_lem}

abbrev fifth : RateLimiter
fifth = record {
  enabled = true;
  base_interval = 5;
  min_interval = 5;
  last_request = none;
  phase = TradingPhase.trading;
}

abbrev calls : List Call
calls = record { now = 1000000; awake = 1000000 } ∷ record { now = 2000000; awake = 6000001 } ∷ []

calls-AreTimed : AreTimed fifth calls
unfolding wait sleep_time
calls-AreTimed = (λ last e. absurd cc, omega arith, (λ last e. ground arith, omega arith, tt))

wait-Apart_example : Pairwise (Apart 5) calls
wait-Apart_example = wait-Apart fifth calls refl calls-AreTimed

set_rps_example :
    (set_rps 150 fifth).enabled ≡ true
    × ((set_rps 150 fifth).phase ≡ TradingPhase.trading)
    × (5 ≤ (set_rps 150 fifth).base_interval)
    × ((set_rps 150 fifth).base_interval * min 150 200 ≤ 1000)
    × (1000 < ((set_rps 150 fifth).base_interval + 1) * min 150 200)
    × (1 ≤ (set_rps 150 fifth).min_interval)
    × ((set_rps 150 fifth).min_interval ≤ (set_rps 150 fifth).base_interval)
set_rps_example = (set_rps_lem 150 fifth).1 (omega arith)

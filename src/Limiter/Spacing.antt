-- ===== src/Limiter/Spacing.antt =====
-- What the rate limiter guarantees: requests stand apart, and the intervals that it takes.
use tdxrs.Base.{
  ℕ, zero, suc, ◌+◌, ◌-◌, ◌*◌, ◌/◌, ◌≤◌, ◌<◌, ◌≡◌, refl, true, false, some, List, [], ◌∷◌, All,
  Pairwise, arith, if◌then◌else◌, ltb, ◌==◌, min, leb, ◌&&◌,
}
use tdxrs.Base.Bits.{passes, passes_at}
use tdxrs.Clock.{TradingPhase}
use tdxrs.Limiter.{RateLimiter, multiplier, adjusted_interval, set_rps, sleep_time, wait}

-- One call of `wait`: when it reads the clock, and when it is awake.
pub record Call : Type 0 where
  pub now : ℕ
  pub awake : ℕ

-- The calls one after the other: the clock does not go back, and a sleep is not too short.
abbrev pub AreTimed : RateLimiter → List Call → Type 0
AreTimed limiter [] = Unit
AreTimed limiter (c ∷ cs) =
    ((last : ℕ) → limiter.last_request ≡ some last → last ≤ c.now)
    × (c.now + sleep_time limiter c.now ≤ c.awake)
    × AreTimed (wait limiter c.awake) cs

abbrev pub Apart : ℕ → Call → Call → Type 0
Apart interval c c' = c.awake + interval * 1000000 ≤ c'.awake

awake_late :
    (limiter : RateLimiter) (last now awake : ℕ)
    → limiter.last_request ≡ some last
    → last ≤ now
    → now + sleep_time limiter now ≤ awake
    → last + limiter.min_interval * 1000000 ≤ awake
unfolding sleep_time
awake_late limiter last now awake e h slept =
    let timed : now
          + (if ltb (now - last) (limiter.min_interval * 1000000)
              then limiter.min_interval * 1000000 - (now - last)
              else 0)
        ≤ awake =
      rw e at slept in
    ground arith

wait_on :
    (limiter : RateLimiter) (awake : ℕ)
    → limiter.enabled ≡ true
    → wait limiter awake ≡ record limiter { last_request = some awake }
unfolding wait
wait_on limiter awake on = rw on refl

-- Every later request is apart from one at `last`.
later_calls :
    (limiter : RateLimiter) (last : ℕ) (cs : List Call)
    → limiter.enabled ≡ true
    → limiter.last_request ≡ some last
    → AreTimed limiter cs
    → All (λ c. last + limiter.min_interval * 1000000 ≤ c.awake) cs
later_calls limiter last [] on e t = tt
later_calls limiter last (c ∷ cs) on e (forward, slept, later) =
    let late = awake_late limiter last c.now c.awake e (forward last e) slept in
    let next : AreTimed (record limiter { last_request = some c.awake }) cs =
      rw (wait_on limiter c.awake on) at later in
    (
      late,
      still_later last c.awake (limiter.min_interval * 1000000) cs (omega arith)
          (later_calls (record limiter { last_request = some c.awake }) c.awake cs on refl next),
    )
  where
    still_later :
        (a b gap : ℕ) (cs : List Call)
        → a ≤ b
        → All (λ c. b + gap ≤ c.awake) cs
        → All (λ c. a + gap ≤ c.awake) cs
    still_later a b gap [] h all = tt
    still_later a b gap (c ∷ cs) h (one, all) = (omega arith, still_later a b gap cs h all)

-- An enabled limiter whose settings stay lets any two requests through at least its interval apart,
-- if the clock does not go back and no sleep is too short.
pub wait-Apart :
    (limiter : RateLimiter) (cs : List Call)
    → limiter.enabled ≡ true
    → AreTimed limiter cs
    → Pairwise (Apart limiter.min_interval) cs
wait-Apart limiter [] on t = tt
wait-Apart limiter (c ∷ cs) on (forward, slept, later) =
    let next : AreTimed (record limiter { last_request = some c.awake }) cs =
      rw (wait_on limiter c.awake on) at later in
    let after = record limiter { last_request = some c.awake } in
    (later_calls after c.awake cs on refl next, wait-Apart after cs on next)

-- The interval of a capped rate `c + 1`.
quotient_table :
    passes
      (λ c.
        leb 5 (1000 / (c + 1))
        && leb (1000 / (c + 1) * (c + 1)) 1000
        && ltb 1000 ((1000 / (c + 1) + 1) * (c + 1)))
      200
    ≡ true
unfolding passes
quotient_table = refl

quotient :
    (c : ℕ) → 1 ≤ c → c ≤ 200 → (5 ≤ 1000 / c) × (1000 / c * c ≤ 1000) × (1000 < (1000 / c + 1) * c)
quotient zero low high = absurd (omega arith)
quotient (suc c) low high =
    let e : c + 1 ≡ suc c = omega arith in
    let checked = passes_at _ 200 c quotient_table (omega arith) in
    rw (← e) (ground (arith, checked))

adjusted_interval_lem :
    (base : ℕ) (phase : TradingPhase)
    → (1 ≤ adjusted_interval base phase) × (1 ≤ base → adjusted_interval base phase ≤ base)
unfolding adjusted_interval multiplier
adjusted_interval_lem base TradingPhase.trading = (omega arith, λ h. omega arith)
adjusted_interval_lem base TradingPhase.pre_post = (omega arith, λ h. omega arith)
adjusted_interval_lem base TradingPhase.closed = (omega arith, λ h. omega arith)

-- A rate of 0 disables the limiter and changes nothing else. Any other, capped at 200, enables it and
-- keeps the phase; the base interval is then 5 milliseconds at least, and the greatest number of
-- milliseconds that as many requests as the capped rate can take within a second. The interval in
-- force is never 0 and never longer than the base interval.
pub set_rps_lem :
    (rps : ℕ) (limiter : RateLimiter)
    → (rps ≡ 0 → set_rps rps limiter ≡ record limiter { enabled = false })
      × (1 ≤ rps
          → let set = set_rps rps limiter in
            (set.enabled ≡ true)
            × (set.phase ≡ limiter.phase)
            × (5 ≤ set.base_interval)
            × (set.base_interval * min rps 200 ≤ 1000)
            × (1000 < (set.base_interval + 1) * min rps 200)
            × (1 ≤ set.min_interval)
            × (set.min_interval ≤ set.base_interval))
unfolding set_rps
set_rps_lem rps limiter = (
  λ none. ground arith,
  λ some_rate.
      let nonzero : (rps == 0) ≡ false = ground arith in
      let (five, fits, full) = quotient (min rps 200) (omega arith) (omega arith) in
      let (low, high) = adjusted_interval_lem (1000 / min rps 200) limiter.phase in
      rw nonzero (refl, refl, five, fits, full, low, high (omega arith)),
)

-- ===== src/Minutes/Points.antt =====
-- The minute data on any bytes: how many points, their times, and that the loops end.
use mathlib.Core.Path.{ap₂}
use tdxrs.Base.{
  ℕ, zero, suc, ◌+◌, ◌-◌, ◌*◌, ◌≤◌, ◌<◌, ◌≡◌, refl, ap, ◌∙◌, List, [], ◌∷◌, Option, some, none,
  arith, length, All, inl, inr, Option-cases, map, reverse, le→ltb, lt→ltb,
}
use tdxrs.Errors.{ok, err}
use tdxrs.Errors.Codes.{response_length_mismatch}
use tdxrs.Bytes.{Bytes, IsByte, read_u16}
use tdxrs.Price.{get_price}
use tdxrs.Price.Bounds.{get_price_moves}
use tdxrs.Floats.{Floats}
use tdxrs.Text.{Text}
use tdxrs.Loop.{collect, collect_fits, collect_fuel, length-collect}
use tdxrs.Dates.{minute_time_from_index}
use tdxrs.Securities.{get_security_coefficient}
use tdxrs.Minutes.{
  MinuteTimePrice, Cursor, from_start, read_point, minute_step, parse_minute_time_data,
  history_step, parse_history_minute_time_data,
}

-- The times of `n` points from the `i`-th on.
abbrev pub times_from : ℕ → ℕ → List Text
times_from i zero = []
times_from i (suc n) = minute_time_from_index i ∷ times_from (i + 1) n

module _ (fl : Floats) where
  abbrev pub times : List (MinuteTimePrice fl) → List Text
  times = map (λ pt. pt.time)

  read_point_lem :
      (coefficient : fl.F64) (body : Bytes) (c : Cursor fl)
      → All IsByte body
      → c.p < length body
      → (c.p < (read_point fl coefficient body c).1.p)
        × ((read_point fl coefficient body c).1.p ≤ length body)
        × (c.p + 3 ≤ length body → c.p + 3 ≤ (read_point fl coefficient body c).1.p)
  unfolding read_point
  read_point_lem coefficient body c h inside =
      let p1 = (get_price body c.p).1 in
      let p2 = (get_price body p1).1 in
      let m1 = get_price_moves body c.p h in
      let m2 = get_price_moves body p1 h in
      let m3 = get_price_moves body p2 h in (omega arith, omega arith, λ room. omega arith)

  read_point_time :
      (coefficient : fl.F64) (body : Bytes) (c : Cursor fl)
      → ((read_point fl coefficient body c).0.time ≡ minute_time_from_index c.index)
        × ((read_point fl coefficient body c).1.index ≡ c.index + 1)
  unfolding read_point
  read_point_time coefficient body c = (refl, refl)

  -- What a step of a loop gives: the time of its index and the next index.
  abbrev IsTimed : (Cursor fl → Option (MinuteTimePrice fl × Cursor fl)) → Type 0
  IsTimed step =
      (c : Cursor fl) (pt : MinuteTimePrice fl) (c' : Cursor fl)
      → step c ≡ some (pt, c')
      → (pt.time ≡ minute_time_from_index c.index) × (c'.index ≡ c.index + 1)

  minute_step_time :
      (coefficient : fl.F64) (body : Bytes) → IsTimed (minute_step fl coefficient body)
  unfolding minute_step
  minute_step_time coefficient body c pt c' e = ground (arith, read_point_time coefficient body c)

  minute_step_span :
      (coefficient : fl.F64) (body : Bytes)
      → All IsByte body
      → (c : Cursor fl) (pt : MinuteTimePrice fl) (c' : Cursor fl)
      → minute_step fl coefficient body c ≡ some (pt, c')
      → (c.p + 3 ≤ length body) × (c.p + 3 ≤ c'.p)
  unfolding minute_step
  minute_step_span coefficient body h c pt c' e =
      ground (arith, read_point_lem coefficient body c h)

  history_step_time :
      (coefficient : fl.F64) (body : Bytes) → IsTimed (history_step fl coefficient body)
  unfolding history_step
  history_step_time coefficient body c pt c' e = ground (arith, read_point_time coefficient body c)

  history_step_falls :
      (coefficient : fl.F64) (body : Bytes)
      → All IsByte body
      → (c : Cursor fl) (pt : MinuteTimePrice fl) (c' : Cursor fl)
      → history_step fl coefficient body c ≡ some (pt, c')
      → length body - c'.p < length body - c.p
  unfolding history_step
  history_step_falls coefficient body h c pt c' e =
      ground (arith, read_point_lem coefficient body c h)

  history_step_ends :
      (coefficient : fl.F64) (body : Bytes)
      → All IsByte body
      → (c : Cursor fl) → history_step fl coefficient body c ≡ none
      → length body ≤ c.p
  unfolding history_step
  history_step_ends coefficient body h c e = ground (arith, read_point_lem coefficient body c h)

  -- The points of a loop carry consecutive times.
  times-collect :
      (step : Cursor fl → Option (MinuteTimePrice fl × Cursor fl))
      → IsTimed step
      → (n : ℕ) (c : Cursor fl)
      → times (collect n step c) ≡ times_from c.index (length (collect n step c))
  unfolding collect
  times-collect step timed zero c = refl
  times-collect step timed (suc n) c = elim (Option-cases (step c)) [
    | inl e ↦ rw (e, collect) refl
    | inr ((pt, c'), e) ↦
        let (t, i) = timed c pt c' e in
        rw (e, collect)
          (ap₂ (λ (a : Text) (l : List Text). a ∷ l) t
            (times-collect step timed n c'
              ∙ ap (λ (j : ℕ). times_from j (length (collect n step c'))) i))
  ]

  -- A body shorter than 14 bytes is refused. On any other the current-day parser returns at most as
  -- many points as are declared and as fit at three bytes each behind the 13 bytes of the header;
  -- read backwards, their times are the first ones of the day, in order.
  pub parse_minute_time_data_valid :
      (body : Bytes) (market : ℕ) (code : Text)
      → All IsByte body
      → (length body < 14
          → parse_minute_time_data fl body market code ≡ err response_length_mismatch)
        × (14 ≤ length body
            → (points : List (MinuteTimePrice fl)) × (parse_minute_time_data fl body market code
                ≡ ok (reverse points))
              × (times points ≡ times_from 0 (length points))
              × (length points ≤ read_u16 body 0)
              × (13 + 3 * length points ≤ length body))
  unfolding parse_minute_time_data from_start
  parse_minute_time_data_valid body market code h = (
    λ short. rw (lt→ltb _ _ short) refl,
    λ full.
        let coefficient = get_security_coefficient fl market code in
        let step = minute_step fl coefficient body in
        let start = from_start fl 13 in
        let points = collect (read_u16 body 0) step start in
        (
          points,
          rw (le→ltb _ _ full) refl,
          times-collect step (minute_step_time coefficient body) _ start,
          length-collect _ step start,
          collect_fits (λ (c : Cursor fl). c.p) 3 (length body) step
              (minute_step_span coefficient body h) _ start (omega arith),
        ),
  )

  -- The loop of the history parser ends by itself: more rounds than the body has bytes read nothing
  -- more, whatever the bytes are. Its points, read backwards, carry the first times of the day in
  -- order, and the break on a position that has not moved is never taken.
  pub parse_history_minute_time_data_total :
      (body : Bytes) (market : ℕ) (code : Text) (rounds : ℕ)
      → All IsByte body
      → length body ≤ rounds
      → let step = history_step fl (get_security_coefficient fl market code) body in
        let points = collect rounds step (from_start fl 6) in
        (parse_history_minute_time_data fl body market code ≡ ok (reverse points))
        × (times points ≡ times_from 0 (length points))
        × ((c : Cursor fl) → step c ≡ none → length body ≤ c.p)
  unfolding parse_history_minute_time_data from_start
  parse_history_minute_time_data_total body market code rounds h hr =
      let coefficient = get_security_coefficient fl market code in
      let step = history_step fl coefficient body in
      (
        ap (λ (l : List (MinuteTimePrice fl)). ok (reverse l))
            (collect_fuel (λ (c : Cursor fl). length body - c.p) step
              (history_step_falls coefficient body h) (length body) rounds (from_start fl 6)
              (omega arith) (omega arith)),
        times-collect step (history_step_time coefficient body) rounds (from_start fl 6),
        history_step_ends coefficient body h,
      )

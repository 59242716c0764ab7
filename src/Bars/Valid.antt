-- ===== src/Bars/Valid.antt =====
-- The two bar parsers on any bytes: what they return is dated, bounded by the slice, and an error
-- comes of a body without a count only.
use tdxrs.Base.{
  ℕ, ◌+◌, ◌*◌, ◌≤◌, ◌<◌, ◌≡◌, refl, true, List, some, arith, length, All, le→ltb, lt→ltb,
}
use tdxrs.Base.Int.{ℤ}
use tdxrs.Errors.{ok, err}
use tdxrs.Errors.Codes.{response_length_mismatch}
use tdxrs.Bytes.{Bytes, IsByte, read_u16}
use tdxrs.Price.{get_price}
use tdxrs.Price.Bounds.{get_price_moves}
use tdxrs.Floats.{Floats}
use tdxrs.Loop.{collect, collect-All, collect_fits, length-collect}
use tdxrs.Dates.{DateTime, get_datetime, date_in_range}
use tdxrs.Bars.{
  SecurityBar, IndexBar, Cursor, read_bar, bar_step, with_counts, index_bar_step,
  parse_security_bars, parse_index_bars,
}

-- What the date check lets through.
pub record IsDated (max_year : ℕ) (t : DateTime) : Type 0 where
  pub year_low : 1980 ≤ t.year
  pub year_high : t.year ≤ max_year
  pub month_low : 1 ≤ t.month
  pub month_high : t.month ≤ 12
  pub day_low : 1 ≤ t.day
  pub day_high : t.day ≤ 31
  pub minute_high : t.minute < 60

get_datetime_lem :
    (category : ℕ) (body : Bytes) (p : ℕ)
    → ((get_datetime category body p).1 ≡ p + 4) × ((get_datetime category body p).0.minute < 60)
unfolding get_datetime
get_datetime_lem category body p = ground arith

dated :
    (max_year : ℕ) (t : DateTime)
    → date_in_range max_year t.date ≡ true
    → t.minute < 60
    → IsDated max_year t
unfolding date_in_range
dated max_year t h m = ground arith

module _ (fl : Floats) (max_year : ℕ) where
  abbrev pub BarIsDated : SecurityBar fl → Type 0
  BarIsDated b = IsDated max_year b.at_time

  -- A bar that starts at `p`, with room for 12 bytes behind it, takes 12 bytes at least.
  read_bar_span :
      (category : ℕ) (body : Bytes) (t : DateTime) (p : ℕ) (base : ℤ)
      → All IsByte body
      → p + 12 ≤ length body
      → p + 12 ≤ (read_bar fl category body t p base).1.p
  unfolding read_bar
  read_bar_span category body t p base h room =
      let p1 = (get_price body p).1 in
      let p2 = (get_price body p1).1 in
      let p3 = (get_price body p2).1 in
      omega (
        arith,
        get_price_moves body p h,
        get_price_moves body p1 h,
        get_price_moves body p2 h,
        get_price_moves body p3 h,
      )

  read_bar_time :
      (category : ℕ) (body : Bytes) (t : DateTime) (p : ℕ) (base : ℤ)
      → (read_bar fl category body t p base).0.at_time ≡ t
  unfolding read_bar
  read_bar_time category body t p base = refl

  bar_step_lem :
      (category : ℕ) (body : Bytes)
      → All IsByte body
      → (c : Cursor) (b : SecurityBar fl) (c' : Cursor)
      → bar_step fl max_year category body c ≡ some (b, c')
      → BarIsDated b × (c.p + 16 ≤ length body) × (c.p + 16 ≤ c'.p)
  unfolding bar_step
  bar_step_lem category body h c b c' e = ground (
    arith,
    get_datetime_lem category body c.p,
    dated max_year (get_datetime category body c.p).0,
    read_bar_span category body (get_datetime category body c.p).0
        (get_datetime category body c.p).1 c.base h,
    read_bar_time category body (get_datetime category body c.p).0
        (get_datetime category body c.p).1 c.base,
  )

  index_bar_step_lem :
      (category : ℕ) (body : Bytes)
      → All IsByte body
      → (c : Cursor) (b : IndexBar fl) (c' : Cursor)
      → index_bar_step fl max_year category body c ≡ some (b, c')
      → BarIsDated b.bar × (c.p + 20 ≤ length body) × (c.p + 20 ≤ c'.p)
  unfolding index_bar_step with_counts
  index_bar_step_lem category body h c b c' e =
      let (t, p) = get_datetime category body c.p in
      ground (
        arith,
        get_datetime_lem category body c.p,
        dated max_year t,
        read_bar_span category body t p c.base h,
        read_bar_time category body t p c.base,
      )

  -- On any bytes: a body shorter than its count is refused with the code 2103; else the parser
  -- returns bars, at most as many as are declared and as fit at 16 bytes each, all of them with a
  -- month from 1 to 12, a day from 1 to 31 and a year from 1980 to the greatest valid one.
  pub parse_security_bars_valid :
      (category : ℕ) (body : Bytes)
      → All IsByte body
      → (length body < 2
          → parse_security_bars fl max_year body category ≡ err response_length_mismatch)
        × (2 ≤ length body
            → (bars : List (SecurityBar fl)) × (parse_security_bars fl max_year body category
                ≡ ok bars)
              × All BarIsDated bars
              × (length bars ≤ read_u16 body 0)
              × (2 + 16 * length bars ≤ length body))
  unfolding parse_security_bars
  parse_security_bars_valid category body h = (
    λ short. rw (lt→ltb _ _ short) refl,
    λ full.
        let step = bar_step fl max_year category body in
        let start : Cursor = record { p = 2; base = ℤ.pos 0 } in
        let bars = collect (read_u16 body 0) step start in
        (
          bars,
          rw (le→ltb _ _ full) refl,
          collect-All (λ _. Unit {0}) BarIsDated step
              (λ c b c' _ e. ((bar_step_lem category body h c b c' e).0, tt)) _ start tt,
          length-collect _ step start,
          collect_fits (λ (c : Cursor). c.p) 16 (length body) step
              (λ c b c' e.
                let (_, inside, on) = bar_step_lem category body h c b c' e in (inside, on))
              _ start full,
        ),
  )

  -- On any bytes: a body shorter than its count is refused with the code 2103; else the parser
  -- returns index bars, at most as many as are declared and as fit at 20 bytes each, all of them with
  -- a month from 1 to 12, a day from 1 to 31 and a year from 1980 to the greatest valid one.
  pub parse_index_bars_valid :
      (category : ℕ) (body : Bytes)
      → All IsByte body
      → (length body < 2
          → parse_index_bars fl max_year body category ≡ err response_length_mismatch)
        × (2 ≤ length body
            → (bars : List (IndexBar fl)) × (parse_index_bars fl max_year body category ≡ ok bars)
              × All (λ b. BarIsDated b.bar) bars
              × (length bars ≤ read_u16 body 0)
              × (2 + 20 * length bars ≤ length body))
  unfolding parse_index_bars
  parse_index_bars_valid category body h = (
    λ short. rw (lt→ltb _ _ short) refl,
    λ full.
        let step = index_bar_step fl max_year category body in
        let start : Cursor = record { p = 2; base = ℤ.pos 0 } in
        let bars = collect (read_u16 body 0) step start in
        (
          bars,
          rw (le→ltb _ _ full) refl,
          collect-All (λ _. Unit {0}) (λ b. BarIsDated b.bar) step
              (λ c b c' _ e. ((index_bar_step_lem category body h c b c' e).0, tt)) _ start tt,
          length-collect _ step start,
          collect_fits (λ (c : Cursor). c.p) 20 (length body) step
              (λ c b c' e.
                let (_, inside, on) = index_bar_step_lem category body h c b c' e in (inside, on))
              _ start full,
        ),
  )

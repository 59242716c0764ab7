-- ===== src/Ticks/Any.antt =====
-- The two tick parsers on any bytes.
use tdxrs.Base.{◌+◌, ◌*◌, ◌≤◌, ◌<◌, ◌≡◌, refl, List, some, arith, length, All, le→ltb, lt→ltb, ◌^◌}
use tdxrs.Base.Int.{ℤ}
use tdxrs.Errors.{ok, err}
use tdxrs.Errors.Codes.{response_length_mismatch}
use tdxrs.Bytes.{Bytes, IsByte, read_u16}
use tdxrs.Price.{get_price}
use tdxrs.Price.Bounds.{get_price_moves}
use tdxrs.Floats.{Floats}
use tdxrs.Loop.{collect, collect-All, collect_fits, length-collect}
use tdxrs.Ticks.{
  TickData, Cursor, as_u32, read_tick, tick_step, parse_transaction_data_with_coefficient,
  read_history_tick, history_tick_step, parse_history_transaction_data_with_coefficient,
}

-- The counters are 32-bit ones.
pub record IsTick (fl : Floats) (t : TickData fl) : Type 0 where
  pub num_fits : t.num < 2 ^ 32
  pub buyorsell_fits : t.buyorsell < 2 ^ 32
  pub reserved_fits : t.reserved < 2 ^ 32

as_u32-lt : (z : ℤ) → as_u32 z < 2 ^ 32
unfolding as_u32
as_u32-lt z = omega arith

module _ (fl : Floats) (coefficient : fl.F64) where
  tick_step_lem :
      (body : Bytes)
      → All IsByte body
      → (c : Cursor) (t : TickData fl) (c' : Cursor)
      → tick_step fl coefficient body c ≡ some (t, c')
      → IsTick fl t × (c.p + 6 ≤ length body) × (c.p + 6 ≤ c'.p)
  unfolding tick_step read_tick
  tick_step_lem body h c t c' e =
      let p1 = (get_price body (c.p + 2)).1 in
      let p2 = (get_price body p1).1 in
      let p3 = (get_price body p2).1 in
      let p4 = (get_price body p3).1 in
      ground (
        arith,
        as_u32-lt (get_price body p2).0,
        as_u32-lt (get_price body p3).0,
        as_u32-lt (get_price body p4).0,
        get_price_moves body (c.p + 2) h,
        get_price_moves body p1 h,
        get_price_moves body p2 h,
        get_price_moves body p3 h,
        get_price_moves body p4 h,
      )

  history_tick_step_lem :
      (body : Bytes)
      → All IsByte body
      → (c : Cursor) (t : TickData fl) (c' : Cursor)
      → history_tick_step fl coefficient body c ≡ some (t, c')
      → IsTick fl t × (c.p + 6 ≤ length body) × (c.p + 6 ≤ c'.p)
  unfolding history_tick_step read_history_tick
  history_tick_step_lem body h c t c' e =
      let p1 = (get_price body (c.p + 2)).1 in
      let p2 = (get_price body p1).1 in
      let p3 = (get_price body p2).1 in
      ground (
        arith,
        as_u32-lt (get_price body p2).0,
        as_u32-lt (get_price body p3).0,
        get_price_moves body (c.p + 2) h,
        get_price_moves body p1 h,
        get_price_moves body p2 h,
        get_price_moves body p3 h,
      )

  -- On any bytes: a body shorter than its count is refused; else the parser returns ticks with
  -- 32-bit counters, at most as many as are declared and as fit at six bytes each.
  pub parse_transaction_data_valid :
      (body : Bytes)
      → All IsByte body
      → (length body < 2
          → parse_transaction_data_with_coefficient fl body coefficient
            ≡ err response_length_mismatch)
        × (2 ≤ length body
            → (ticks : List (TickData fl)) × (parse_transaction_data_with_coefficient fl body
                  coefficient
                ≡ ok ticks)
              × All (IsTick fl) ticks
              × (length ticks ≤ read_u16 body 0)
              × (2 + 6 * length ticks ≤ length body))
  unfolding parse_transaction_data_with_coefficient
  parse_transaction_data_valid body h = (
    λ short. rw (lt→ltb _ _ short) refl,
    λ full.
        let step = tick_step fl coefficient body in
        let start : Cursor = record { p = 2; last_price = ℤ.pos 0 } in
        (
          collect (read_u16 body 0) step start,
          rw (le→ltb _ _ full) refl,
          collect-All (λ _. Unit {0}) (IsTick fl) step
              (λ c t c' _ e. ((tick_step_lem body h c t c' e).0, tt)) _ start tt,
          length-collect _ step start,
          collect_fits (λ (c : Cursor). c.p) 6 (length body) step
              (λ c t c' e. let (_, inside, on) = tick_step_lem body h c t c' e in (inside, on)) _
              start full,
        ),
  )

  -- On any bytes: a body shorter than its header of six bytes is refused; else the parser of past
  -- ticks returns ticks with 32-bit counters, at most as many as are declared and as fit at six bytes
  -- each behind the header.
  pub parse_history_transaction_data_valid :
      (body : Bytes)
      → All IsByte body
      → (length body < 6
          → parse_history_transaction_data_with_coefficient fl body coefficient
            ≡ err response_length_mismatch)
        × (6 ≤ length body
            → (ticks : List (TickData fl)) × (parse_history_transaction_data_with_coefficient fl
                  body coefficient
                ≡ ok ticks)
              × All (IsTick fl) ticks
              × (length ticks ≤ read_u16 body 0)
              × (6 + 6 * length ticks ≤ length body))
  unfolding parse_history_transaction_data_with_coefficient
  parse_history_transaction_data_valid body h = (
    λ short. rw (lt→ltb _ _ short) refl,
    λ full.
        let step = history_tick_step fl coefficient body in
        let start : Cursor = record { p = 6; last_price = ℤ.pos 0 } in
        (
          collect (read_u16 body 0) step start,
          rw (le→ltb _ _ full) refl,
          collect-All (λ _. Unit {0}) (IsTick fl) step
              (λ c t c' _ e. ((history_tick_step_lem body h c t c' e).0, tt)) _ start tt,
          length-collect _ step start,
          collect_fits (λ (c : Cursor). c.p) 6 (length body) step
              (λ c t c' e.
                let (_, inside, on) = history_tick_step_lem body h c t c' e in (inside, on))
              _ start full,
        ),
  )

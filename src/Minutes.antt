-- ===== src/Minutes.antt =====
-- `parse_minute_time_data` and `parse_history_minute_time_data` of src/protocol/parsers.rs. Each
-- point is a price difference, a skipped integer and a volume; the newest point comes first.
pub mod Points
use tdxrs.Base.{
  ℕ, ◌+◌, Bool, Option, none, some, List, reverse, if◌then◌else◌, ltb, ◌==◌, ◌||◌, not, length,
}
use tdxrs.Base.Int.{ℤ, saturating_add}
use tdxrs.Errors.{Outcome, ok, ◌>>=◌, ◌>>◌, fail_if}
use tdxrs.Errors.Codes.{response_length_mismatch}
use tdxrs.Bytes.{Bytes, read_u16}
use tdxrs.Price.{get_price}
use tdxrs.Floats.{Floats}
use tdxrs.Text.{Text}
use tdxrs.Loop.{collect}
use tdxrs.Dates.{minute_time_from_index}
use tdxrs.Securities.{get_security_coefficient}

module _ (fl : Floats) where
  open fl use {F64, of_int, literal, add, mul, div, less}

  pub record MinuteTimePrice : Type 0 where
    pub time : Text
    pub price : F64
    pub avg_price : F64
    pub vol : F64

  -- The variables of the loops.
  pub record Cursor : Type 0 where
    pub p : ℕ
    pub pre_diff_base : ℤ
    pub cum_amount : F64
    pub cum_vol : F64
    pub index : ℕ

  unfoldable pub from_start : ℕ → Cursor
  from_start p = record {
    p = p;
    pre_diff_base = ℤ.pos 0;
    cum_amount = literal 0 0;
    cum_vol = literal 0 0;
    index = 0;
  }

  -- The body of both loops.
  unfoldable pub read_point : F64 → Bytes → Cursor → MinuteTimePrice × Cursor
  read_point coefficient body c =
      let (price_diff, p1) = get_price body c.p in
      let base = saturating_add c.pre_diff_base price_diff in
      let price = mul (of_int base) coefficient in
      let p2 = (get_price body p1).1 in
      let (vol_diff, p3) = get_price body p2 in
      let vol = of_int vol_diff in
      let cum_amount = add c.cum_amount (mul price vol) in
      let cum_vol = add c.cum_vol vol in
      (
        record {
          time = minute_time_from_index c.index;
          price = price;
          avg_price = if less (literal 0 0) cum_vol then div cum_amount cum_vol else price;
          vol = vol;
        },
        record {
          p = p3;
          pre_diff_base = base;
          cum_amount = cum_amount;
          cum_vol = cum_vol;
          index = c.index + 1;
        },
      )

  unfoldable pub minute_step : F64 → Bytes → Cursor → Option (MinuteTimePrice × Cursor)
  minute_step coefficient body c =
      if ltb (length body) (c.p + 3) then none else some (read_point coefficient body c)

  unfoldable pub parse_minute_time_data : Bytes → ℕ → Text → Outcome (List MinuteTimePrice)
  parse_minute_time_data body market code = do
    fail_if (ltb (length body) 14) response_length_mismatch
    ok (
        reverse (
          collect (read_u16 body 0) (minute_step (get_security_coefficient fl market code) body)
            (from_start 13)))

  -- One round of `while pos < body.len()`, with the break on a position that has not moved.
  unfoldable pub history_step : F64 → Bytes → Cursor → Option (MinuteTimePrice × Cursor)
  history_step coefficient body c =
      let (point, c') = read_point coefficient body c in
      if not (ltb c.p (length body)) || c'.p == c.p then none else some (point, c')

  -- Each round moves on by a byte at least, so the length of the body is fuel enough.
  unfoldable pub parse_history_minute_time_data : Bytes → ℕ → Text → Outcome (List MinuteTimePrice)
  parse_history_minute_time_data body market code = ok (
      reverse (
        collect (length body) (history_step (get_security_coefficient fl market code) body)
          (from_start 6)))

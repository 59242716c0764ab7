-- ===== src/Bars.antt =====
-- `parse_security_bars` and `parse_index_bars` of src/protocol/parsers.rs. Prices are differences to
-- the previous close, in thousandths; sums wrap around as in a release build.
pub mod Valid
pub mod Encoded
pub mod RoundTrip
pub mod IndexRoundTrip
use tdxrs.Base.{ℕ, ◌+◌, Bool, Option, none, some, List, if◌then◌else◌, ltb, length, not}
use tdxrs.Base.Int.{ℤ, wrap64, ◌+ℤ◌}
use tdxrs.Errors.{Outcome, ok, ◌>>=◌, ◌>>◌, fail_if}
use tdxrs.Errors.Codes.{response_length_mismatch}
use tdxrs.Bytes.{Bytes, read_u16, read_u32}
use tdxrs.Price.{get_price}
use tdxrs.Floats.{Floats}
use tdxrs.Volume.{get_volume}
use tdxrs.Text.{Text}
use tdxrs.Loop.{collect}
use tdxrs.Dates.{
  Date, DateTime, get_datetime, has_time, date_in_range, format_date, format_datetime,
}

-- The position and the close of the last bar, in thousandths.
pub record Cursor : Type 0 where
  pub p : ℕ
  pub base : ℤ

module _ (fl : Floats) where
  open fl use {F64, of_int, div, literal}

  pub record SecurityBar : Type 0 where
    pub open_price : F64
    pub close : F64
    pub high : F64
    pub low : F64
    pub vol : F64
    pub amount : F64
    pub at_time : DateTime
    pub open at_time use *
    pub datetime : Text

  pub record IndexBar : Type 0 where
    pub bar : SecurityBar
    pub open bar use *
    pub up_count : ℕ
    pub down_count : ℕ

  abbrev pub thousandths : ℤ → F64
  thousandths n = div (of_int n) (literal 1000 0)

  unfoldable pub bar_datetime : ℕ → DateTime → Text
  bar_datetime category t =
      if has_time category
      then format_datetime t.year t.month t.day t.hour t.minute
      else format_date t.year t.month t.day

  -- One bar behind its date check: four price differences, volume and amount.
  unfoldable pub read_bar : ℕ → Bytes → DateTime → ℕ → ℤ → SecurityBar × Cursor
  read_bar category body t p base =
      let (price_open_diff, p1) = get_price body p in
      let accumulated = wrap64 (base +ℤ price_open_diff) in
      let (price_close_diff, p2) = get_price body p1 in
      let (price_high_diff, p3) = get_price body p2 in
      let (price_low_diff, p4) = get_price body p3 in
      (
        record {
          open_price = thousandths accumulated;
          close = thousandths (wrap64 (accumulated +ℤ price_close_diff));
          high = thousandths (wrap64 (accumulated +ℤ price_high_diff));
          low = thousandths (wrap64 (accumulated +ℤ price_low_diff));
          vol = get_volume fl (read_u32 body p4);
          amount = get_volume fl (read_u32 body (p4 + 4));
          at_time = t;
          datetime = bar_datetime category t;
        },
        record { p = p4 + 8; base = wrap64 (accumulated +ℤ price_close_diff) },
      )

  -- One round of the loop; `none` is a break.
  unfoldable pub bar_step : ℕ → ℕ → Bytes → Cursor → Option (SecurityBar × Cursor)
  bar_step max_year category body c =
      let (t, p) = get_datetime category body c.p in
      if ltb (length body) (c.p + 16)
      then none
      else if not (date_in_range max_year t.date)
      then none
      else some (read_bar category body t p c.base)

  unfoldable pub parse_security_bars : ℕ → Bytes → ℕ → Outcome (List SecurityBar)
  parse_security_bars max_year body category = do
    fail_if (ltb (length body) 2) response_length_mismatch
    ok (
        collect (read_u16 body 0) (bar_step max_year category body)
          (record { p = 2; base = ℤ.pos 0 }))

  -- An index bar has two counters behind the fields of a bar.
  unfoldable pub with_counts : Bytes → SecurityBar × Cursor → IndexBar × Cursor
  with_counts body (bar, c) = (
    record { bar = bar; up_count = read_u16 body c.p; down_count = read_u16 body (c.p + 2) },
    record c { p = c.p + 4 },
  )

  unfoldable pub index_bar_step : ℕ → ℕ → Bytes → Cursor → Option (IndexBar × Cursor)
  index_bar_step max_year category body c =
      let (t, p) = get_datetime category body c.p in
      if ltb (length body) (c.p + 24)
      then none
      else if not (date_in_range max_year t.date)
      then none
      else some (with_counts body (read_bar category body t p c.base))

  unfoldable pub parse_index_bars : ℕ → Bytes → ℕ → Outcome (List IndexBar)
  parse_index_bars max_year body category = do
    fail_if (ltb (length body) 2) response_length_mismatch
    ok (
        collect (read_u16 body 0) (index_bar_step max_year category body)
          (record { p = 2; base = ℤ.pos 0 }))

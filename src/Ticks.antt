-- ===== src/Ticks.antt =====
-- `parse_transaction_data`, `parse_history_transaction_data` and their `_with_coefficient` forms in
-- src/protocol/parsers.rs. Prices are differences whose sum saturates.
pub mod RoundTrip
pub mod Any
use tdxrs.Base.{
  ℕ, ◌+◌, ◌/◌, ◌%◌, ◌^◌, ◌++◌, ◌∷◌, [], Bool, Option, none, some, List, if◌then◌else◌, ltb, length,
}
use tdxrs.Base.Int.{ℤ, saturating_add, pattern64}
use tdxrs.Errors.{Outcome, ok, ◌>>=◌, ◌>>◌, fail_if}
use tdxrs.Errors.Codes.{response_length_mismatch}
use tdxrs.Bytes.{Bytes, read_u16}
use tdxrs.Price.{get_price}
use tdxrs.Floats.{Floats}
use tdxrs.Text.{Text, padded}
use tdxrs.Loop.{collect}

-- The position and the last price.
pub record Cursor : Type 0 where
  pub p : ℕ
  pub last_price : ℤ

-- `n as u32` of an `i64`.
unfoldable pub as_u32 : ℤ → ℕ
unfolding pattern64
as_u32 n = pattern64 n % 2 ^ 32

-- `format!("{:02}:{:02}", minutes / 60, minutes % 60)`.
unfoldable pub tick_time : ℕ → Text
tick_time minutes = padded 2 (minutes / 60) ++ (58 ∷ padded 2 (minutes % 60))

module _ (fl : Floats) where
  open fl use {F64, of_int, mul, literal}

  pub record TickData : Type 0 where
    pub time : Text
    pub price : F64
    pub vol : F64
    pub num : ℕ
    pub buyorsell : ℕ
    pub reserved : ℕ

  unfoldable pub read_tick : F64 → Bytes → Cursor → TickData × Cursor
  read_tick coefficient body c =
      let minutes = read_u16 body c.p in
      let (price_diff, p1) = get_price body (c.p + 2) in
      let last_price = saturating_add c.last_price price_diff in
      let (vol, p2) = get_price body p1 in
      let (num, p3) = get_price body p2 in
      let (buyorsell, p4) = get_price body p3 in
      let (reserved, p5) = get_price body p4 in
      (
        record {
          time = tick_time minutes;
          price = mul (of_int last_price) coefficient;
          vol = of_int vol;
          num = as_u32 num;
          buyorsell = as_u32 buyorsell;
          reserved = as_u32 reserved;
        },
        record { p = p5; last_price = last_price },
      )

  unfoldable pub tick_step : F64 → Bytes → Cursor → Option (TickData × Cursor)
  tick_step coefficient body c =
      if ltb (length body) (c.p + 6) then none else some (read_tick coefficient body c)

  unfoldable pub parse_transaction_data_with_coefficient : Bytes → F64 → Outcome (List TickData)
  parse_transaction_data_with_coefficient body coefficient = do
    fail_if (ltb (length body) 2) response_length_mismatch
    ok (
        collect (read_u16 body 0) (tick_step coefficient body)
          (record { p = 2; last_price = ℤ.pos 0 }))

  unfoldable pub parse_transaction_data : Bytes → Outcome (List TickData)
  parse_transaction_data body = parse_transaction_data_with_coefficient body (literal 1 2)

  -- A tick of a past day has no number of trades.
  unfoldable pub read_history_tick : F64 → Bytes → Cursor → TickData × Cursor
  read_history_tick coefficient body c =
      let minutes = read_u16 body c.p in
      let (price_diff, p1) = get_price body (c.p + 2) in
      let last_price = saturating_add c.last_price price_diff in
      let (vol, p2) = get_price body p1 in
      let (buyorsell, p3) = get_price body p2 in
      let (reserved, p4) = get_price body p3 in
      (
        record {
          time = tick_time minutes;
          price = mul (of_int last_price) coefficient;
          vol = of_int vol;
          num = 0;
          buyorsell = as_u32 buyorsell;
          reserved = as_u32 reserved;
        },
        record { p = p4; last_price = last_price },
      )

  unfoldable pub history_tick_step : F64 → Bytes → Cursor → Option (TickData × Cursor)
  history_tick_step coefficient body c =
      if ltb (length body) (c.p + 6) then none else some (read_history_tick coefficient body c)

  unfoldable pub parse_history_transaction_data_with_coefficient :
      Bytes → F64 → Outcome (List TickData)
  parse_history_transaction_data_with_coefficient body coefficient = do
    fail_if (ltb (length body) 6) response_length_mismatch
    ok (
        collect (read_u16 body 0) (history_tick_step coefficient body)
          (record { p = 6; last_price = ℤ.pos 0 }))

  unfoldable pub parse_history_transaction_data : Bytes → Outcome (List TickData)
  parse_history_transaction_data body =
      parse_history_transaction_data_with_coefficient body (literal 1 2)

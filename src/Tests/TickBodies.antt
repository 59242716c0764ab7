-- ===== src/Tests/TickBodies.antt =====
-- One trade, as the current day and a past day write it.
use tdxrs.Base.{◌≡◌, refl, [], ◌∷◌, ◌++◌, arith, All}
use tdxrs.Base.Int.{ℤ, ◌-ℤ◌}
use tdxrs.Errors.{ok}
use tdxrs.Bytes.{Bytes, IsByte}
use tdxrs.Bytes.Layout.{le16}
use tdxrs.Floats.{symbols}
use tdxrs.Ticks.{
  parse_transaction_data_with_coefficient, parse_history_transaction_data_with_coefficient,
}
use tdxrs.Ticks.RoundTrip.{
  Trade, IsWritable, encode_ticks, encode_history_ticks, meant, meant_history,
  parse_transaction_data_lem, parse_history_transaction_data_lem,
}

abbrev cent : symbols.F64
cent = symbols.literal 1 2

abbrev trade : Trade
trade = record {
  minutes = 571;
  price = ℤ.pos 1010;
  vol = ℤ.pos 300;
  num = 4;
  buyorsell = 1;
  reserved = 0;
}

trade-IsWritable : IsWritable (ℤ.pos 0) trade
trade-IsWritable =
    unfold ◌-ℤ◌ in
    record {
      minutes_fit = omega arith;
      price_fits = (omega arith, omega arith);
      diff_fits = (omega arith, omega arith);
      vol_fits = (omega arith, omega arith);
      num_fits = omega arith;
      buyorsell_fits = omega arith;
      reserved_fits = omega arith;
    }

parse_transaction_data_example :
    parse_transaction_data_with_coefficient symbols
      (le16 1 ++ encode_ticks (ℤ.pos 0) (trade ∷ []))
      cent
    ≡ ok (meant symbols cent trade ∷ [])
parse_transaction_data_example =
    parse_transaction_data_lem symbols cent (trade ∷ []) (omega arith) (trade-IsWritable, tt)

parse_history_transaction_data_example :
    parse_history_transaction_data_with_coefficient symbols
      (le16 1 ++ ((9 ∷ 9 ∷ 9 ∷ 9 ∷ []) ++ encode_history_ticks (ℤ.pos 0) (trade ∷ [])))
      cent
    ≡ ok (meant_history symbols cent trade ∷ [])
parse_history_transaction_data_example =
    parse_history_transaction_data_lem symbols cent (trade ∷ []) (9 ∷ 9 ∷ 9 ∷ 9 ∷ []) refl
      (omega arith) (trade-IsWritable, tt)

abbrev tick_body : Bytes
tick_body = 2 ∷ 0 ∷ 59 ∷ 2 ∷ 1 ∷ 2 ∷ 3 ∷ 4 ∷ 5 ∷ 59 ∷ 2 ∷ 1 ∷ 2 ∷ 3 ∷ 4 ∷ 5 ∷ []

tick_body-IsByte : All IsByte tick_body
tick_body-IsByte = ground arith

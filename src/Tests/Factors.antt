-- ===== src/Tests/Factors.antt =====
-- Two days, one dividend between them.
use tdxrs.Base.{Pairwise, ◌≤◌, ℕ, ◌≡◌, refl, List, [], ◌∷◌, map, arith, some, inl}
use tdxrs.Floats.{symbols}
use tdxrs.Bars.{SecurityBar}
use tdxrs.Events.{XdXrInfo, no_amounts}
use tdxrs.Adjust.{
  calc_fq_factors, FqType, Event, dividends, sort_events, factor_map, scale_bar, round_bar,
  adjust_security_bars, calc_qfq_factor, insert_event, find_close_before_event, last_of,
}
use tdxrs.Adjust.Scan.{take_while}
use mathlib.Core.List.{Perm}
use tdxrs.Adjust.Order.{IsBefore}
use tdxrs.Adjust.Factors.{AreFactors, announced, product, one_over, calc_fq_factors_lem}
use tdxrs.Adjust.Reference.{AreOrdered, cumulative, adjust_security_bars_lem}

abbrev pub on_day : ℕ → SecurityBar symbols
on_day day =
    let ten = symbols.literal 10 0 in
    record {
      open_price = ten;
      close = ten;
      high = ten;
      low = ten;
      vol = ten;
      amount = ten;
      at_time = record {
        date = record { year = 2024; month = 5; day = day };
        hour = 0;
        minute = 0;
      };
      datetime = [];
    }

abbrev pub dividend : XdXrInfo symbols
dividend = record {
  date = record { year = 2024; month = 5; day = 17 };
  category = 1;
  name = [];
  amounts = record (no_amounts symbols) { fenhong = some (symbols.literal 5 0) };
}

abbrev events : List (Event symbols)
events = sort_events symbols (dividends symbols (dividend ∷ []))

abbrev factor : symbols.F64
factor =
    let tenth = λ (x : symbols.F64). symbols.div x (symbols.literal 10 0) in
    calc_qfq_factor symbols (symbols.literal 10 0) (record {
      div_per_share = tenth (symbols.literal 5 0);
      bonus_ratio = tenth (symbols.literal 0 0);
      rights_ratio = tenth (symbols.literal 0 0);
      rights_price = symbols.literal 0 0;
    })

usable : factor_map symbols (on_day 16 ∷ on_day 17 ∷ []) [] events [] ≡ (20240517, factor) ∷ []
unfolding factor_map sort_events insert_event dividends find_close_before_event last_of take_while
    calc_qfq_factor
usable = refl

days-AreOrdered : AreOrdered symbols (on_day 16 ∷ on_day 17 ∷ [])
days-AreOrdered = ((omega arith, tt), (tt, tt))

adjust_security_bars_example :
    adjust_security_bars symbols (on_day 16 ∷ on_day 17 ∷ []) [] (dividend ∷ []) FqType.qfq
    ≡ map
        (λ b.
          round_bar symbols (
            scale_bar symbols (cumulative symbols FqType.qfq ((20240517, factor) ∷ []) events b) b))
        (on_day 16 ∷ on_day 17 ∷ [])
adjust_security_bars_example =
    adjust_security_bars_lem symbols (on_day 16) (on_day 17 ∷ []) [] dividend [] (20240517, factor)
      [] FqType.qfq (inl refl) days-AreOrdered usable

calc_fq_factors_example :
    let bars = on_day 16 ∷ on_day 17 ∷ [] in
    let result = calc_fq_factors symbols (dividend ∷ []) bars [] in
    (found : List (Event symbols)) × Perm found (announced symbols (dividend ∷ []))
    × Pairwise (IsBefore symbols) found
    × AreFactors symbols bars [] found result.factors
    × Pairwise (λ i j. i.date ≤ j.date) result.factors
    × (result.cumulative_qfq ≡ product symbols (symbols.literal 1 0) result.factors)
    × (result.cumulative_hfq ≡ one_over symbols result.cumulative_qfq)
calc_fq_factors_example =
    calc_fq_factors_lem symbols (on_day 16 ∷ on_day 17 ∷ []) [] (dividend ∷ [])

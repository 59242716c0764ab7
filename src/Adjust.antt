-- ===== src/Adjust.antt =====
-- src/protocol/adjuster.rs and src/protocol/fq_service.rs: the factors of dividends and the prices
-- adjusted by them, forward (`qfq`) and backward (`hfq`). The bars are changed in place; here the
-- changed bars are returned.
pub mod Order
pub mod Scan
pub mod Reference
pub mod Close
pub mod Factors
use tdxrs.Base.{
  ℕ, ◌+◌, ◌-◌, ◌*◌, ◌/◌, ◌%◌, ◌^◌, Bool, true, false, ◌&&◌, ◌||◌, not, Option, none, some, List, [],
  ◌∷◌, ◌++◌, map, reverse, if◌then◌else◌, ltb, leb, ◌==◌,
}
use tdxrs.Floats.{Floats}
use tdxrs.Dates.{Date}
use tdxrs.Bars.{SecurityBar, IndexBar}
use tdxrs.Events.{XdXrInfo}
use tdxrs.Adjust.Scan.{take_while, scan}

pub data FqType : Type 0 where
  unadjusted qfq hfq : FqType

-- `FqService::fq_type_from_u8`.
unfoldable pub fq_type_from_u8 : ℕ → FqType
fq_type_from_u8 fq =
    if fq == 0 then FqType.unadjusted else if fq == 2 then FqType.hfq else FqType.qfq

pub data FqContextTier : Type 0 where
  low mid high : FqContextTier

-- The bars of a tier over the 800 bars of a page.
unfoldable pub pages : FqContextTier → ℕ
pages FqContextTier.low = 2400 / 800
pages FqContextTier.mid = 4800 / 800
pages FqContextTier.high = 7200 / 800

-- `date.year * 10000 + date.month * 100 + date.day` of `u32`s.
abbrev pub date_key : Date → ℕ
date_key t = (t.year * 10000 + t.month * 100 + t.day) % 2 ^ 32

unfoldable pub last_of {ℓ} : {A : Type ℓ} → List A → Option A
last_of [] = none
last_of (x ∷ xs) = elim (last_of xs) [ none ↦ some x | some y ↦ some y ]

unfoldable pub find {ℓ} : {A : Type ℓ} → (A → Bool) → List A → Option A
find test [] = none
find test (x ∷ xs) = if test x then some x else find test xs

module _ (fl : Floats) where
  open fl use {F64, literal, add, sub, mul, div, abs, round, less, is_finite}

  -- `FqService::auto_detect_tier`; the subtraction saturates at 0.
  unfoldable pub auto_detect_tier : List (XdXrInfo fl) → ℕ → FqContextTier
  auto_detect_tier [] current_year = FqContextTier.mid
  auto_detect_tier (earliest ∷ later) current_year =
      let years_back = current_year - earliest.year in
      if leb years_back 10
      then FqContextTier.low
      else if leb years_back 20
      then FqContextTier.mid
      else FqContextTier.high

  pub record FactorParts : Type 0 where
    pub div_per_share : F64
    pub bonus_ratio : F64
    pub rights_ratio : F64
    pub rights_price : F64

  abbrev pub tiny : F64
  tiny = literal 1 10

  abbrev one : F64
  one = literal 1 0

  unfoldable pub calc_qfq_factor : F64 → FactorParts → F64
  calc_qfq_factor close_before parts =
      let denominator = mul close_before (add (add one parts.bonus_ratio) parts.rights_ratio) in
      let numerator =
        add (sub close_before parts.div_per_share) (mul parts.rights_price parts.rights_ratio) in
      if less (abs denominator) tiny || less (abs close_before) tiny
      then one
      else div numerator denominator

  -- `10_f64.powi(3)`: the places are always `FQ_PRICE_PRECISION`.
  unfoldable pub round_price : F64 → F64
  round_price p = let scale = literal 1000 0 in div (round (mul p scale)) scale

  abbrev pub bar_key : SecurityBar fl → ℕ
  bar_key b = date_key b.at_time.date

  unfoldable pub find_close_before_event :
      List (SecurityBar fl) → List (SecurityBar fl) → ℕ → Option F64
  find_close_before_event bars context_bars key =
      let before = λ (b : SecurityBar fl). ltb (bar_key b) key in
      elim (last_of (take_while before bars)) [
        | some bar ↦ some bar.close
        | none ↦ elim (find before (reverse context_bars)) [
          | some bar ↦ some bar.close
          | none ↦ none
        ]
      ]

  abbrev pub Event : Type 0
  Event = ℕ × FactorParts

  abbrev or_zero : Option F64 → F64
  or_zero none = literal 0 0
  or_zero (some x) = x

  abbrev event_of : XdXrInfo fl → Event
  event_of xd =
      let ten = literal 10 0 in
      (
        date_key xd.date,
        record {
          div_per_share = div (or_zero xd.fenhong) ten;
          bonus_ratio = div (or_zero xd.songzhuangu) ten;
          rights_ratio = div (or_zero xd.peigu) ten;
          rights_price = or_zero xd.peigujia;
        },
      )

  -- The events of category 1, in the order of the list.
  unfoldable pub dividends : List (XdXrInfo fl) → List Event
  dividends [] = []
  dividends (xd ∷ xds) =
      if not (xd.category == 1) then dividends xds else event_of xd ∷ dividends xds

  -- `sort_by_key(|e| e.0)`, which is stable.
  unfoldable pub insert_event : Event → List Event → List Event
  insert_event e [] = e ∷ []
  insert_event e (x ∷ xs) = if leb e.0 x.0 then e ∷ x ∷ xs else x ∷ insert_event e xs

  unfoldable pub sort_events : List Event → List Event
  sort_events [] = []
  sort_events (e ∷ es) = insert_event e (sort_events es)

  pub record FqFactorItem : Type 0 where
    pub date : ℕ
    pub close_before : F64
    pub qfq_factor : F64
    pub hfq_factor : F64
    pub parts : FactorParts

  pub record FqFactorResult : Type 0 where
    pub factors : List FqFactorItem
    pub cumulative_qfq : F64
    pub cumulative_hfq : F64

  abbrev pub inverse : F64 → F64
  inverse x = if less tiny (abs x) then div one x else one

  -- The loop of `calc_fq_factors` over the sorted events.
  unfoldable pub factor_loop :
      List (SecurityBar fl) → List (SecurityBar fl) → List Event → F64 → List FqFactorItem × F64
  factor_loop bars context_bars [] cumulative = ([], cumulative)
  factor_loop bars context_bars ((key, parts) ∷ es) cumulative =
      elim (find_close_before_event bars context_bars key) [
        | none ↦ factor_loop bars context_bars es cumulative
        | some p_close ↦
            let qfq_factor = calc_qfq_factor p_close parts in
            let (items, total) = factor_loop bars context_bars es (mul cumulative qfq_factor) in
            (
              record {
                date = key;
                close_before = p_close;
                qfq_factor = qfq_factor;
                hfq_factor = inverse qfq_factor;
                parts = parts;
              }
                  ∷ items,
              total,
            )
      ]

  unfoldable pub calc_fq_factors :
      List (XdXrInfo fl) → List (SecurityBar fl) → List (SecurityBar fl) → FqFactorResult
  calc_fq_factors xdxr_list bars context_bars =
      let (factors, cumulative) =
        factor_loop bars context_bars (sort_events (dividends xdxr_list)) one in
      record { factors = factors; cumulative_qfq = cumulative; cumulative_hfq = inverse cumulative }

  -- The `BTreeMap` from date to factor: what was inserted last comes first.
  unfoldable pub factor_map :
      List (SecurityBar fl) → List (SecurityBar fl) → List Event → List (ℕ × F64) → List (ℕ × F64)
  factor_map bars context_bars [] factors = factors
  factor_map bars context_bars ((key, parts) ∷ es) factors =
      elim (find_close_before_event bars context_bars key) [
        | none ↦ factor_map bars context_bars es factors
        | some p_close ↦
            let factor = calc_qfq_factor p_close parts in
            factor_map bars context_bars es (
              if not (is_finite factor) || less (abs factor) tiny
              then factors
              else (key, factor) ∷ factors)
      ]

  unfoldable pub get_factor : List (ℕ × F64) → ℕ → Option F64
  get_factor [] key = none
  get_factor ((k, f) ∷ rest) key = if k == key then some f else get_factor rest key

  -- `cumulative *= factor` going back in time, `cumulative *= 1.0 / factor` going on.
  unfoldable pub apply_event : FqType → List (ℕ × F64) → F64 → Event → F64
  apply_event fq_type factors cumulative (key, _) = elim (get_factor factors key) [
    | none ↦ cumulative
    | some factor ↦ elim fq_type [
      | FqType.unadjusted ↦ cumulative
      | FqType.qfq ↦ mul cumulative factor
      | FqType.hfq ↦ mul cumulative (div one factor)
    ]
  ]

  -- Whether the `while` loop takes an event at a bar.
  unfoldable pub is_due : FqType → SecurityBar fl → Event → Bool
  is_due FqType.unadjusted bar e = false
  is_due FqType.qfq bar e = ltb (bar_key bar) e.0
  is_due FqType.hfq bar e = leb e.0 (bar_key bar)

  unfoldable pub scale_bar : F64 → SecurityBar fl → SecurityBar fl
  scale_bar cumulative bar =
      if less tiny (abs (sub cumulative one))
      then record bar {
        open_price = mul bar.open_price cumulative;
        high = mul bar.high cumulative;
        low = mul bar.low cumulative;
        close = mul bar.close cumulative;
      }
      else bar

  unfoldable pub round_bar : SecurityBar fl → SecurityBar fl
  round_bar bar = record bar {
    open_price = round_price bar.open_price;
    high = round_price bar.high;
    low = round_price bar.low;
    close = round_price bar.close;
  }

  unfoldable pub adjusted :
      FqType → List (ℕ × F64) → List Event → List (SecurityBar fl) → List (SecurityBar fl)
  adjusted FqType.unadjusted factors events bars = bars
  adjusted FqType.qfq factors events bars = reverse (
      scan (is_due FqType.qfq) (apply_event FqType.qfq factors) scale_bar one (reverse events)
        (reverse bars))
  adjusted FqType.hfq factors events bars =
      scan (is_due FqType.hfq) (apply_event FqType.hfq factors) scale_bar one events bars

  abbrev is_empty {ℓ} : {A : Type ℓ} → List A → Bool
  is_empty [] = true
  is_empty (x ∷ xs) = false

  abbrev is_unadjusted : FqType → Bool
  is_unadjusted FqType.unadjusted = true
  is_unadjusted FqType.qfq = false
  is_unadjusted FqType.hfq = false

  -- `FqService::apply_fq` is this function.
  unfoldable pub adjust_security_bars :
      List (SecurityBar fl)
      → List (SecurityBar fl)
      → List (XdXrInfo fl)
      → FqType
      → List (SecurityBar fl)
  adjust_security_bars bars context_bars xdxr_list fq_type =
      let events = sort_events (dividends xdxr_list) in
      let factors = factor_map bars context_bars events [] in
      if is_unadjusted fq_type || is_empty bars || is_empty xdxr_list
      then bars
      else if is_empty factors
      then bars
      else map round_bar (adjusted fq_type factors events bars)

  -- The bars of an index are left as they are.
  unfoldable pub adjust_index_bars :
      List (IndexBar fl) → List (XdXrInfo fl) → FqType → List (IndexBar fl)
  adjust_index_bars bars xdxr_list fq_type = bars

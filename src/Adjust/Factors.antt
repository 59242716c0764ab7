-- ===== src/Adjust/Factors.antt =====
-- `calc_fq_factors`: which events have a factor, from which close and by which formula, and the product
-- of the factors.
use std.Path.{subst}
use mathlib.Core.List.{Perm}
use mathlib.Core.List.Perm
use tdxrs.Base.{
  ℕ, ◌≤◌, ◌≡◌, refl, sym, ap, ◌⊎◌, ◌||◌, Option, none, some, List, [], ◌∷◌, All, Pairwise,
  Option-cases, inl, inr, if◌then◌else◌, ◌==◌, leb, Bool-cases,
}
use tdxrs.Floats.{Floats}
use tdxrs.Bars.{SecurityBar}
use tdxrs.Events.{XdXrInfo}
use tdxrs.Adjust.Scan.{foldl}
use tdxrs.Adjust.Order.{IsBefore, sort_events-Pairwise}
use tdxrs.Adjust.Close.{IsClose, find_close_before_event_lem}
use tdxrs.Adjust.{
  Event, FactorParts, date_key, FqFactorItem, dividends, insert_event, sort_events,
  find_close_before_event, calc_qfq_factor, factor_loop, calc_fq_factors,
}

module _ (fl : Floats) where
  open fl use {F64, literal, add, sub, mul, div, abs, less}

  abbrev value : Option F64 → F64
  value none = literal 0 0
  value (some x) = x

  -- An event, the amounts for ten shares being divided by ten.
  abbrev pub announced_event : XdXrInfo fl → Event fl
  announced_event x = (
    date_key x.date,
    record {
      div_per_share = div (value x.fenhong) (literal 10 0);
      bonus_ratio = div (value x.songzhuangu) (literal 10 0);
      rights_ratio = div (value x.peigu) (literal 10 0);
      rights_price = value x.peigujia;
    },
  )

  -- The events of category 1.
  abbrev pub announced : List (XdXrInfo fl) → List (Event fl)
  announced [] = []
  announced (x ∷ xs) = if x.category == 1 then announced_event x ∷ announced xs else announced xs

  -- The price without the event over the price with it: (close - dividend + price × rights) over
  -- (close × (1 + bonus + rights)), or 1 where the close or the denominator is no more than 1e-10.
  abbrev pub price_ratio : F64 → FactorParts fl → F64
  price_ratio close p =
      let below = mul close (add (add (literal 1 0) p.bonus_ratio) p.rights_ratio) in
      let above = add (sub close p.div_per_share) (mul p.rights_price p.rights_ratio) in
      if less (abs below) (literal 1 10) || less (abs close) (literal 1 10)
      then literal 1 0
      else div above below

  abbrev pub one_over : F64 → F64
  one_over x = if less (literal 1 10) (abs x) then div (literal 1 0) x else literal 1 0

  abbrev pub item_of : Event fl → F64 → FqFactorItem fl
  item_of (key, parts) close = record {
    date = key;
    close_before = close;
    qfq_factor = price_ratio close parts;
    hfq_factor = one_over (price_ratio close parts);
    parts = parts;
  }

  abbrev pub product : F64 → List (FqFactorItem fl) → F64
  product = foldl (λ x i. mul x i.qfq_factor)

  dividends-announced : (xs : List (XdXrInfo fl)) → dividends fl xs ≡ announced xs
  unfolding dividends
  dividends-announced [] = refl
  dividends-announced (x ∷ xs) = elim (Bool-cases (x.category == 1)) [
    | inl e ↦
        rw (dividends, e)
          (ap (λ (l : List (Event fl)). announced_event x ∷ l) (dividends-announced xs))
    | inr e ↦ rw (dividends, e) (dividends-announced xs)
  ]

  insert_event-Perm : (e : Event fl) (es : List (Event fl)) → Perm (insert_event fl e es) (e ∷ es)
  unfolding insert_event
  insert_event-Perm e [] = Perm.rfl
  insert_event-Perm e (x ∷ xs) = elim (Bool-cases (leb e.0 x.0)) [
    | inl t ↦ rw (insert_event, t) Perm.rfl
    | inr t ↦
        rw (insert_event, t) (Perm.trans (Perm.cons x (insert_event-Perm e xs)) (Perm.swap e x xs))
  ]

  sort_events-Perm : (es : List (Event fl)) → Perm (sort_events fl es) es
  unfolding sort_events
  sort_events-Perm [] = Perm.rfl
  sort_events-Perm (e ∷ es) =
      Perm.trans (insert_event-Perm e (sort_events fl es)) (Perm.cons e (sort_events-Perm es))

module _ (fl : Floats) (bars context_bars : List (SecurityBar fl)) where
  -- The items are those of the events that have a close before them, each with its factor.
  abbrev pub AreFactors : List (Event fl) → List (FqFactorItem fl) → Type 0
  AreFactors [] items = items ≡ []
  AreFactors (e ∷ es) items =
      (IsClose fl bars context_bars e.0 none × AreFactors es items)
      ⊎ ((close : fl.F64) × (rest : List (FqFactorItem fl)) × IsClose fl bars context_bars e.0
            (some close)
          × (items ≡ item_of fl e close ∷ rest)
          × AreFactors es rest)

  skipped :
      (key : ℕ) (parts : FactorParts fl) (es : List (Event fl)) (c : fl.F64)
      → find_close_before_event fl bars context_bars key ≡ none
      → factor_loop fl bars context_bars ((key, parts) ∷ es) c
        ≡ factor_loop fl bars context_bars es c
  unfolding factor_loop
  skipped key parts es c e = rw (factor_loop, e) refl

  taken :
      (key : ℕ) (parts : FactorParts fl) (es : List (Event fl)) (c close : fl.F64)
      → find_close_before_event fl bars context_bars key ≡ some close
      → let later = factor_loop fl bars context_bars es (fl.mul c (price_ratio fl close parts)) in
        factor_loop fl bars context_bars ((key, parts) ∷ es) c
        ≡ (item_of fl (key, parts) close ∷ later.0, later.1)
  unfolding factor_loop calc_qfq_factor
  taken key parts es c close e = rw (factor_loop, e) refl

  found-IsClose :
      (key : ℕ) (o : Option fl.F64)
      → find_close_before_event fl bars context_bars key ≡ o
      → IsClose fl bars context_bars key o
  found-IsClose key o e =
      subst (IsClose fl bars context_bars key) e
        (find_close_before_event_lem fl bars context_bars key)

  abbrev Loop : Type 0
  Loop = List (FqFactorItem fl) × fl.F64

  -- What the loop comes to, from the cumulative factor `c` on.
  abbrev IsProduct : List (Event fl) → fl.F64 → Loop → Type 0
  IsProduct es c r = AreFactors es r.0 × (r.1 ≡ product fl c r.0)

  factor_loop-IsProduct :
      (es : List (Event fl)) (c : fl.F64) → IsProduct es c (factor_loop fl bars context_bars es c)
  unfolding factor_loop
  factor_loop-IsProduct [] c = (refl, refl)
  factor_loop-IsProduct ((key, parts) ∷ es) c =
      elim (Option-cases (find_close_before_event fl bars context_bars key)) [
        | inl e ↦
            let (items, total) = factor_loop-IsProduct es c in
            subst (IsProduct ((key, parts) ∷ es) c) (sym (skipped key parts es c e))
              (inl (found-IsClose key none e, items), total)
        | inr (close, e) ↦
            let (items, total) = factor_loop-IsProduct es (fl.mul c (price_ratio fl close parts)) in
            subst (IsProduct ((key, parts) ∷ es) c) (sym (taken key parts es c close e))
              (inr (close, _, found-IsClose key (some close) e, refl, items), total)
      ]

  -- The dates of the items are dates of the events.
  AreFactors-late :
      (date : ℕ) (es : List (Event fl)) (items : List (FqFactorItem fl))
      → AreFactors es items
      → All (λ e. date ≤ e.0) es
      → All (λ i. date ≤ i.date) items
  AreFactors-late date [] items h a = rw h tt
  AreFactors-late date (e ∷ es) items (inl (none_before, h)) (a, as_) =
      AreFactors-late date es items h as_
  AreFactors-late date (e ∷ es) items (inr (close, rest, before, split, h)) (a, as_) =
      rw split (a, AreFactors-late date es rest h as_)

  AreFactors-Pairwise :
      (es : List (Event fl)) (items : List (FqFactorItem fl))
      → AreFactors es items
      → Pairwise (IsBefore fl) es
      → Pairwise (λ i j. i.date ≤ j.date) items
  AreFactors-Pairwise [] items h p = rw h tt
  AreFactors-Pairwise (e ∷ es) items (inl (none_before, h)) (p, ps) =
      AreFactors-Pairwise es items h ps
  AreFactors-Pairwise (e ∷ es) items (inr (close, rest, before, split, h)) (p, ps) =
      rw split (AreFactors-late e.0 es rest h p, AreFactors-Pairwise es rest h ps)

  -- The events of category 1, each once, are gone through in the order of their dates. An event with a
  -- close before its date, that of the last bar before it, is listed with this close and the factor
  -- that the formula gives; an event without is left out. The list is in the order of the dates. The
  -- cumulative factor is the product of its factors in this order, from 1, and the cumulative factor
  -- for the other direction is one over it, or 1 where it is no more than 1e-10.
  pub calc_fq_factors_lem :
      (xdxr_list : List (XdXrInfo fl))
      → let result = calc_fq_factors fl xdxr_list bars context_bars in
        (events : List (Event fl)) × Perm events (announced fl xdxr_list)
        × Pairwise (IsBefore fl) events
        × AreFactors events result.factors
        × Pairwise (λ i j. i.date ≤ j.date) result.factors
        × (result.cumulative_qfq ≡ product fl (fl.literal 1 0) result.factors)
        × (result.cumulative_hfq ≡ one_over fl result.cumulative_qfq)
  unfolding calc_fq_factors
  calc_fq_factors_lem xdxr_list =
      let found = dividends fl xdxr_list in
      let events = sort_events fl found in
      let sorted = sort_events-Pairwise fl found in
      let (items, total) = factor_loop-IsProduct events (fl.literal 1 0) in
      (
        events,
        subst (Perm events) (dividends-announced fl xdxr_list) (sort_events-Perm fl found),
        sorted,
        items,
        AreFactors-Pairwise events _ items sorted,
        total,
        refl,
      )

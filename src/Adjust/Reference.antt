-- ===== src/Adjust/Reference.antt =====
-- The adjuster against its definition: the bars that the two-pointer loop gives are the bars each
-- adjusted on its own.
use mathlib.Core.Path.{ap₂}
use mathlib.Core.List.{reverse-reverse, reverse-cons, map-append, map-map}
use tdxrs.Base.{
  Pairwise, ℕ, ◌≤◌, ◌≡◌, refl, ap, ◌∙◌, false, List, [], ◌∷◌, ◌++◌, map, reverse, leb, ltb, ◌⊎◌,
  inl, inr, arith,
}
use tdxrs.Floats.{Floats}
use tdxrs.Bars.{SecurityBar}
use tdxrs.Events.{XdXrInfo}
use tdxrs.Adjust.Scan.{take_while, scan, foldl, AreGrowing, scan_lem}
use tdxrs.Adjust.Order.{
  filter, All-map, Pairwise-reverse, take_while-filter, IsBefore, sort_events-Pairwise,
}
use tdxrs.Adjust.{
  FqType, Event, bar_key, dividends, sort_events, factor_map, apply_event, is_due, scale_bar,
  round_bar, adjusted, adjust_security_bars,
}

map-reverse {ℓ κ} :
    {A : Type ℓ} {B : Type κ} (f : A → B) (xs : List A) → map f (reverse xs) ≡ reverse (map f xs)
map-reverse f [] = refl
map-reverse {B} f (x ∷ xs) =
    rw (reverse-cons x xs, reverse-cons (f x) (map f xs), map-append f (reverse xs) (x ∷ []))
      (ap (λ (l : List B). l ++ (f x ∷ [])) (map-reverse f xs))

map_cong {ℓ κ} :
    {A : Type ℓ} {B : Type κ} (f g : A → B) (xs : List A)
    → ((x : A) → f x ≡ g x)
    → map f xs ≡ map g xs
map_cong f g [] h = refl
map_cong {B} f g (x ∷ xs) h = ap₂ (λ (y : B) (l : List B). y ∷ l) (h x) (map_cong f g xs h)

module _ (fl : Floats) where
  -- Bars in the order of their dates.
  abbrev pub AreOrdered : List (SecurityBar fl) → Type 0
  AreOrdered = Pairwise (λ a b. bar_key fl a ≤ bar_key fl b)

  -- What a bar is scaled by: forward, by the factors of all events after it, the latest first;
  -- backward, by the inverse factors of all events up to it, the earliest first.
  abbrev pub cumulative : FqType → List (ℕ × fl.F64) → List (Event fl) → SecurityBar fl → fl.F64
  cumulative FqType.unadjusted factors events bar = fl.literal 1 0
  cumulative FqType.qfq factors events bar =
      foldl (apply_event fl FqType.qfq factors) (fl.literal 1 0)
        (filter (λ e. ltb (bar_key fl bar) e.0) (reverse events))
  cumulative FqType.hfq factors events bar =
      foldl (apply_event fl FqType.hfq factors) (fl.literal 1 0)
        (filter (λ e. leb e.0 (bar_key fl bar)) events)

  due_later :
      (bars : List (SecurityBar fl))
      → AreOrdered bars
      → AreGrowing (is_due fl FqType.hfq) (apply_event fl FqType.hfq []) (scale_bar fl) bars
  unfolding is_due
  due_later [] o = tt
  due_later (b ∷ bs) (o, os) = (All-map _ _ (λ b' h e t. ground arith) bs o, due_later bs os)

  due_earlier :
      (bars : List (SecurityBar fl))
      → Pairwise (λ a b. bar_key fl b ≤ bar_key fl a) bars
      → AreGrowing (is_due fl FqType.qfq) (apply_event fl FqType.qfq []) (scale_bar fl) bars
  unfolding is_due
  due_earlier [] o = tt
  due_earlier (b ∷ bs) (o, os) = (All-map _ _ (λ b' h e t. ground arith) bs o, due_earlier bs os)

  due_before :
      (bar : SecurityBar fl) (es : List (Event fl))
      → Pairwise (IsBefore fl) es
      → take_while (is_due fl FqType.hfq bar) es ≡ filter (λ e. leb e.0 (bar_key fl bar)) es
  unfolding is_due
  due_before bar es o = take_while-filter _ es (later es o)
    where
      later :
          (es : List (Event fl))
          → Pairwise (IsBefore fl) es
          → Pairwise (λ a b. leb a.0 (bar_key fl bar) ≡ false → leb b.0 (bar_key fl bar) ≡ false) es
      later [] o = tt
      later (e ∷ es) (o, os) = (All-map _ _ (λ a h t. ground arith) es o, later es os)

  due_after :
      (bar : SecurityBar fl) (es : List (Event fl))
      → Pairwise (λ a b. b.0 ≤ a.0) es
      → take_while (is_due fl FqType.qfq bar) es ≡ filter (λ e. ltb (bar_key fl bar) e.0) es
  unfolding is_due
  due_after bar es o = take_while-filter _ es (later es o)
    where
      later :
          (es : List (Event fl))
          → Pairwise (λ a b. b.0 ≤ a.0) es
          → Pairwise (λ a b. ltb (bar_key fl bar) a.0 ≡ false → ltb (bar_key fl bar) b.0 ≡ false) es
      later [] o = tt
      later (e ∷ es) (o, os) = (All-map _ _ (λ a h t. ground arith) es o, later es os)

  adjusted_hfq :
      (factors : List (ℕ × fl.F64)) (es : List (Event fl)) (bars : List (SecurityBar fl))
      → Pairwise (IsBefore fl) es
      → AreOrdered bars
      → adjusted fl FqType.hfq factors es bars
        ≡ map (λ b. scale_bar fl (cumulative FqType.hfq factors es b) b) bars
  unfolding adjusted
  adjusted_hfq factors es bars oe ob =
      scan_lem (is_due fl FqType.hfq) (apply_event fl FqType.hfq factors) (scale_bar fl) bars
        (fl.literal 1 0) es (due_later bars ob)
      ∙ map_cong _ _ bars (λ b.
        ap
          (λ (l : List (Event fl)).
            scale_bar fl (foldl (apply_event fl FqType.hfq factors) (fl.literal 1 0) l) b)
          (due_before b es oe))

  adjusted_qfq :
      (factors : List (ℕ × fl.F64)) (es : List (Event fl)) (bars : List (SecurityBar fl))
      → Pairwise (IsBefore fl) es
      → AreOrdered bars
      → adjusted fl FqType.qfq factors es bars
        ≡ map (λ b. scale_bar fl (cumulative FqType.qfq factors es b) b) bars
  unfolding adjusted
  adjusted_qfq factors es bars oe ob =
      let backwards : (scan (is_due fl FqType.qfq) (apply_event fl FqType.qfq factors)
            (scale_bar fl) (fl.literal 1 0) (reverse es) (reverse bars))
          ≡ reverse (map (λ b. scale_bar fl (cumulative FqType.qfq factors es b) b) bars) =
        scan_lem (is_due fl FqType.qfq) (apply_event fl FqType.qfq factors) (scale_bar fl)
          (reverse bars) (fl.literal 1 0) (reverse es)
          (due_earlier (reverse bars) (Pairwise-reverse _ bars ob))
        ∙ map_cong _ _ (reverse bars) (λ b.
          ap
            (λ (l : List (Event fl)).
              scale_bar fl (foldl (apply_event fl FqType.qfq factors) (fl.literal 1 0) l) b)
            (due_after b (reverse es) (Pairwise-reverse _ es oe)))
        ∙ map-reverse (λ b. scale_bar fl (cumulative FqType.qfq factors es b) b) bars in
      ap reverse backwards
      ∙ reverse-reverse (map (λ b. scale_bar fl (cumulative FqType.qfq factors es b) b) bars)

  -- Bars in the order of their dates, adjusted forward or backward, with at least one usable factor:
  -- every bar is scaled on its own by the factors of exactly the events after it, or by the inverse
  -- factors of exactly the events up to it, and rounded.
  pub adjust_security_bars_lem :
      (bar : SecurityBar fl) (bars context_bars : List (SecurityBar fl)) (x : XdXrInfo fl)
      (xs : List (XdXrInfo fl)) (f : ℕ × fl.F64) (fs : List (ℕ × fl.F64)) (fq_type : FqType)
      → (fq_type ≡ FqType.qfq) ⊎ (fq_type ≡ FqType.hfq)
      → AreOrdered (bar ∷ bars)
      → let events = sort_events fl (dividends fl (x ∷ xs)) in
        factor_map fl (bar ∷ bars) context_bars events [] ≡ f ∷ fs
        → adjust_security_bars fl (bar ∷ bars) context_bars (x ∷ xs) fq_type
          ≡ map
              (λ b. round_bar fl (scale_bar fl (cumulative fq_type (f ∷ fs) events b) b))
              (bar ∷ bars)
  unfolding adjust_security_bars
  adjust_security_bars_lem bar bars context_bars x xs f fs FqType.qfq kind ordered usable =
      let events = sort_events fl (dividends fl (x ∷ xs)) in
      let sorted = sort_events-Pairwise fl (dividends fl (x ∷ xs)) in
      rw usable (
        ap (map (round_bar fl)) (adjusted_qfq (f ∷ fs) events (bar ∷ bars) sorted ordered)
        ∙ map-map (round_bar fl) (λ b. scale_bar fl (cumulative FqType.qfq (f ∷ fs) events b) b)
            (bar ∷ bars))
  adjust_security_bars_lem bar bars context_bars x xs f fs FqType.hfq kind ordered usable =
      let events = sort_events fl (dividends fl (x ∷ xs)) in
      let sorted = sort_events-Pairwise fl (dividends fl (x ∷ xs)) in
      rw usable (
        ap (map (round_bar fl)) (adjusted_hfq (f ∷ fs) events (bar ∷ bars) sorted ordered)
        ∙ map-map (round_bar fl) (λ b. scale_bar fl (cumulative FqType.hfq (f ∷ fs) events b) b)
            (bar ∷ bars))
  adjust_security_bars_lem bar bars context_bars x xs f fs FqType.unadjusted kind ordered usable =
      elim kind [ inl e ↦ absurd cc | inr e ↦ absurd cc ]

  -- Nothing is changed without an adjustment, without events, or if no factor is usable.
  pub adjust_security_bars_unchanged :
      (bars context_bars : List (SecurityBar fl)) (xdxr_list : List (XdXrInfo fl))
      (fq_type : FqType)
      → ((fq_type ≡ FqType.unadjusted) ⊎ (xdxr_list ≡ []))
        ⊎ (factor_map fl bars context_bars (sort_events fl (dividends fl xdxr_list)) [] ≡ [])
      → adjust_security_bars fl bars context_bars xdxr_list fq_type ≡ bars
  unfolding adjust_security_bars
  adjust_security_bars_unchanged bars context_bars xdxr_list fq_type why = elim why [
    | inl (inl e) ↦ rw e refl
    | inl (inr e) ↦ rw e (ground arith)
    | inr e ↦ rw e (ground arith)
  ]

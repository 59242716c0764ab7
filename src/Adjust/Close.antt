-- ===== src/Adjust/Close.antt =====
-- `find_close_before_event`: which bar it takes the close from, with no bar in order needed.
use mathlib.Core.List.{reverse-cons}
use tdxrs.Base.{
  ℕ, ◌≡◌, refl, ap, Bool, true, false, Option, none, some, List, [], ◌∷◌, ◌++◌, reverse, ◌⊎◌, inl,
  inr, ltb, if◌then◌else◌, All, Bool-cases,
}
use tdxrs.Floats.{Floats}
use tdxrs.Bars.{SecurityBar}
use tdxrs.Adjust.Scan.{take_while}
use tdxrs.Adjust.{last_of, find, bar_key, find_close_before_event}

module _ {A : Type 0} (test : A → Bool) where
  abbrev pub Fails : List A → Type 0
  Fails = All (λ x. test x ≡ false)

  -- A list that does not begin with an element which passes.
  abbrev pub StartsLate : List A → Type 0
  StartsLate [] = Unit
  StartsLate (x ∷ xs) = test x ≡ false

  -- The last of the elements in front of the first that fails.
  abbrev pub IsLastInFront : List A → Option A → Type 0
  IsLastInFront xs none = StartsLate xs
  IsLastInFront xs (some b) =
      (front : List A) × (back : List A) × (xs ≡ front ++ (b ∷ back))
      × All (λ x. test x ≡ true) front
      × (test b ≡ true)
      × StartsLate back

  -- The last of all the elements that pass.
  abbrev pub IsLast : List A → Option A → Type 0
  IsLast xs none = Fails xs
  IsLast xs (some b) =
      (front : List A) × (back : List A) × (xs ≡ front ++ (b ∷ back)) × (test b ≡ true) × Fails back

  put_front :
      (x : A) (xs : List A) (o : Option A)
      → test x ≡ true
      → IsLastInFront xs o
      → IsLastInFront (x ∷ xs) (elim o [ none ↦ some x | some y ↦ some y ])
  put_front x xs none e late = ([], xs, refl, tt, e, late)
  put_front x xs (some b) e (front, back, split, early, t, late) =
      (x ∷ front, back, ap (λ (l : List A). x ∷ l) split, (e, early), t, late)

  last_of-IsLastInFront : (xs : List A) → IsLastInFront xs (last_of (take_while test xs))
  unfolding take_while last_of
  last_of-IsLastInFront [] = tt
  last_of-IsLastInFront (x ∷ xs) = elim (Bool-cases (test x)) [
    | inl e ↦
        rw (take_while, e)
          (put_front x xs (last_of (take_while test xs)) e (last_of-IsLastInFront xs))
    | inr e ↦ rw (take_while, e) e
  ]

  -- What a search in front of one more element comes to.
  abbrev or_last : A → Option A → Option A
  or_last x (some b) = some b
  or_last x none = if test x then some x else none

  find-or_last : (x : A) (ys : List A) → find test (ys ++ (x ∷ [])) ≡ or_last x (find test ys)
  unfolding find
  find-or_last x [] = refl
  find-or_last x (y ∷ ys) = elim (Bool-cases (test y)) [
    | inl e ↦ rw (find, e) refl
    | inr e ↦ rw (find, e) (find-or_last x ys)
  ]

  put_behind : (x : A) (xs : List A) (o : Option A) → IsLast xs o → IsLast (x ∷ xs) (or_last x o)
  put_behind x xs (some b) (front, back, split, t, late) =
      (x ∷ front, back, ap (λ (l : List A). x ∷ l) split, t, late)
  put_behind x xs none late = elim (Bool-cases (test x)) [
    | inl e ↦ rw e ([], xs, refl, e, late)
    | inr e ↦ rw e (e, late)
  ]

  find-IsLast : (xs : List A) → IsLast xs (find test (reverse xs))
  unfolding find
  find-IsLast [] = tt
  find-IsLast (x ∷ xs) =
      rw (reverse-cons x xs, find-or_last x (reverse xs))
        (put_behind x xs (find test (reverse xs)) (find-IsLast xs))

module _ (fl : Floats) (bars context_bars : List (SecurityBar fl)) where
  abbrev pub is_early : ℕ → SecurityBar fl → Bool
  is_early key b = ltb (bar_key fl b) key

  -- The bar is the last before the date: the last of the bars in front of the first that is on the date
  -- or behind it, or where the first bar is that already, the last such bar of the context.
  abbrev pub IsBarBefore : ℕ → SecurityBar fl → Type 0
  IsBarBefore key b =
      IsLastInFront (is_early key) bars (some b)
      ⊎ (StartsLate (is_early key) bars × IsLast (is_early key) context_bars (some b))

  abbrev pub IsClose : ℕ → Option fl.F64 → Type 0
  IsClose key none = StartsLate (is_early key) bars × Fails (is_early key) context_bars
  IsClose key (some c) = (b : SecurityBar fl) × (c ≡ b.close) × IsBarBefore key b

  choose :
      (key : ℕ) (o o' : Option (SecurityBar fl))
      → IsLastInFront (is_early key) bars o
      → IsLast (is_early key) context_bars o'
      → IsClose key (elim o [
        | some bar ↦ some bar.close
        | none ↦ elim o' [ some bar ↦ some bar.close | none ↦ none ]
      ])
  choose key (some b) o' h h' = (b, refl, inl h)
  choose key none (some b) h h' = (b, refl, inr (h, h'))
  choose key none none h h' = (h, h')

  pub find_close_before_event_lem :
      (key : ℕ) → IsClose key (find_close_before_event fl bars context_bars key)
  unfolding find_close_before_event
  find_close_before_event_lem key =
      choose key (last_of (take_while (is_early key) bars))
        (find (is_early key) (reverse context_bars)) (last_of-IsLastInFront (is_early key) bars)
        (find-IsLast (is_early key) context_bars)

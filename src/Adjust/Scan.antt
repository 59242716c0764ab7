-- ===== src/Adjust/Scan.antt =====
-- The two-pointer loop of the adjuster: bars and events are walked together, each event is applied
-- once, and every bar is scaled by what was applied until then.
use mathlib.Core.Path.{ap₂}
use tdxrs.Base.{
  ◌≡◌, refl, ◌∙◌, Bool, true, List, [], ◌∷◌, map, All, if◌then◌else◌, Bool-cases, inl, inr,
}

-- `iter().take_while(..)`.
unfoldable pub take_while {ℓ} : {A : Type ℓ} → (A → Bool) → List A → List A
take_while test [] = []
take_while test (x ∷ xs) = if test x then x ∷ take_while test xs else []

-- The inner loop, `while let Some(e) = events.peek()`: the state and the events that are left.
unfoldable pub take_due {ℓ κ} :
    {C : Type ℓ} {E : Type κ} → (E → Bool) → (C → E → C) → C → List E → C × List E
take_due due step c [] = (c, [])
take_due due step c (e ∷ es) =
    let later = take_due due step (step c e) es in if due e then later else (c, e ∷ es)

-- The outer loop.
unfoldable pub scan {ℓ κ μ} :
    {C : Type ℓ} {E : Type κ} {B : Type μ}
    → (B → E → Bool)
    → (C → E → C)
    → (C → B → B)
    → C
    → List E
    → List B
    → List B
scan due step scale c es [] = []
scan due step scale c es (b ∷ bs) =
    let (c', es') = take_due (due b) step c es in scale c' b ∷ scan due step scale c' es' bs

abbrev pub foldl {ℓ κ} : {C : Type ℓ} {E : Type κ} → (C → E → C) → C → List E → C
foldl step c [] = c
foldl step c (e ∷ es) = foldl step (step c e) es

module _ {ℓ κ μ} {C : Type ℓ} {E : Type κ} {B : Type μ} (due : B → E → Bool) (step : C → E → C)
    (scale : C → B → B) where
  -- An event that is due at a bar is due at each later one.
  abbrev Grows : B → B → Type κ
  Grows b b' = (e : E) → due b e ≡ true → due b' e ≡ true

  abbrev pub AreGrowing : List B → Type (κ ⊔ μ)
  AreGrowing [] = Unit
  AreGrowing (b ∷ bs) = All (Grows b) bs × AreGrowing bs

  -- Behind the events taken at `b`, a later bar takes the rest of its own.
  taken_later :
      (b b' : B) (c : C) (es : List E)
      → Grows b b'
      → foldl step
          (take_due (due b) step c es).0
          (take_while (due b') (take_due (due b) step c es).1)
        ≡ foldl step c (take_while (due b') es)
  unfolding take_due take_while
  taken_later b b' c [] g = refl
  taken_later b b' c (e ∷ es) g = elim (Bool-cases (due b e)) [
    | inl d ↦ rw (d, g e d) (taken_later b b' (step c e) es g)
    | inr d ↦ rw d refl
  ]

  taken :
      (b : B) (c : C) (es : List E)
      → (take_due (due b) step c es).0 ≡ foldl step c (take_while (due b) es)
  unfolding take_due take_while
  taken b c [] = refl
  taken b c (e ∷ es) = elim (Bool-cases (due b e)) [
    | inl d ↦ rw d (taken b (step c e) es)
    | inr d ↦ rw d refl
  ]

  map_later :
      (b : B) (c : C) (es : List E) (bs : List B)
      → All (Grows b) bs
      → map
          (λ (b' : B).
            scale
              (foldl step
                (take_due (due b) step c es).0
                (take_while (due b') (take_due (due b) step c es).1))
              b')
          bs
        ≡ map (λ (b' : B). scale (foldl step c (take_while (due b') es)) b') bs
  map_later b c es [] g = refl
  map_later b c es (b' ∷ bs) (g, gs) =
      ap₂ (λ (x : C) (l : List B). scale x b' ∷ l) (taken_later b b' c es g)
        (map_later b c es bs gs)

  -- The loop comes to what each bar on its own comes to: all the events due at it, in order.
  pub scan_lem :
      (bs : List B) (c : C) (es : List E)
      → AreGrowing bs
      → scan due step scale c es bs
        ≡ map (λ (b : B). scale (foldl step c (take_while (due b) es)) b) bs
  unfolding scan
  scan_lem [] c es g = refl
  scan_lem (b ∷ bs) c es (g, gs) =
      ap₂ (λ (x : C) (l : List B). scale x b ∷ l) (taken b c es)
        (scan_lem bs _ _ gs ∙ map_later b c es bs g)

-- ===== src/Adjust/Order.antt =====
-- The order of bars and events: the sorted events, lists read backwards, and what an ordered list
-- gives up to the first element that fails a test.
use mathlib.Core.List.{reverse-cons}
use tdxrs.Base.{
  Pairwise, ◌≤◌, ◌≡◌, refl, ap, sym, Bool, false, List, [], ◌∷◌, ◌++◌, reverse, All, if◌then◌else◌,
  Bool-cases, leb, inl, inr, arith, All-append,
}
use tdxrs.Floats.{Floats}
use tdxrs.Adjust.Scan.{take_while}
use tdxrs.Adjust.{Event, insert_event, sort_events}

abbrev pub filter {ℓ} : {A : Type ℓ} → (A → Bool) → List A → List A
filter test [] = []
filter test (x ∷ xs) = if test x then x ∷ filter test xs else filter test xs

module _ {ℓ κ} {A : Type ℓ} where
  pub All-map {μ} :
      (P : A → Type κ) (Q : A → Type μ)
      → ((a : A) → P a → Q a)
      → (xs : List A) → All P xs
      → All Q xs
  All-map P Q f [] h = tt
  All-map P Q f (x ∷ xs) (h, hs) = (f x h, All-map P Q f xs hs)

  All-reverse : (P : A → Type κ) (xs : List A) → All P xs → All P (reverse xs)
  All-reverse P [] h = tt
  All-reverse P (x ∷ xs) (h, hs) =
      rw (reverse-cons x xs) (All-append P (reverse xs) (x ∷ []) (All-reverse P xs hs) (h, tt))

  Pairwise-append :
      (R : A → A → Type κ) (xs : List A) (y : A)
      → Pairwise R xs
      → All (λ x. R x y) xs
      → Pairwise R (xs ++ (y ∷ []))
  Pairwise-append R [] y p h = (tt, tt)
  Pairwise-append R (x ∷ xs) y (p, ps) (h, hs) =
      (All-append (R x) xs (y ∷ []) p (h, tt), Pairwise-append R xs y ps hs)

  -- Read backwards, a list is ordered the other way round.
  pub Pairwise-reverse :
      (R : A → A → Type κ) (xs : List A) → Pairwise R xs → Pairwise (λ a b. R b a) (reverse xs)
  Pairwise-reverse R [] p = tt
  Pairwise-reverse R (x ∷ xs) (p, ps) = rw (reverse-cons x xs) (
      Pairwise-append (λ a b. R b a) (reverse xs) x (Pairwise-reverse R xs ps)
        (All-reverse (R x) xs p))

filter_none {ℓ} :
    {A : Type ℓ} (test : A → Bool) (xs : List A)
    → All (λ x. test x ≡ false) xs
    → filter test xs ≡ []
filter_none test [] h = refl
filter_none test (x ∷ xs) (h, hs) = rw h (filter_none test xs hs)

-- Where a test stays false once it is, taking from the front is filtering.
pub take_while-filter {ℓ} :
    {A : Type ℓ} (test : A → Bool) (xs : List A)
    → Pairwise (λ a b. test a ≡ false → test b ≡ false) xs
    → take_while test xs ≡ filter test xs
unfolding take_while
take_while-filter test [] p = refl
take_while-filter {A} test (x ∷ xs) (p, ps) = elim (Bool-cases (test x)) [
  | inl e ↦ rw e (ap (λ (l : List A). x ∷ l) (take_while-filter test xs ps))
  | inr e ↦ rw e (sym (filter_none test xs (All-map _ _ (λ a h. h e) xs p)))
]

module _ (fl : Floats) where
  abbrev pub IsBefore : Event fl → Event fl → Type 0
  IsBefore e e' = e.0 ≤ e'.0

  insert-All :
      (P : Event fl → Type 0) (e : Event fl) (es : List (Event fl))
      → P e
      → All P es
      → All P (insert_event fl e es)
  unfolding insert_event
  insert-All P e [] h hs = (h, tt)
  insert-All P e (x ∷ xs) h (hx, hs) = elim (Bool-cases (leb e.0 x.0)) [
    | inl t ↦ rw t (h, (hx, hs))
    | inr t ↦ rw t (hx, insert-All P e xs h hs)
  ]

  insert-Pairwise :
      (e : Event fl) (es : List (Event fl))
      → Pairwise IsBefore es
      → Pairwise IsBefore (insert_event fl e es)
  unfolding insert_event
  insert-Pairwise e [] p = (tt, tt)
  insert-Pairwise e (x ∷ xs) (p, ps) = elim (Bool-cases (leb e.0 x.0)) [
    | inl t ↦
        let first : e.0 ≤ x.0 = ground arith in
        rw t ((first, All-map (IsBefore x) (IsBefore e) (λ a h. omega arith) xs p), (p, ps))
    | inr t ↦ rw t (insert-All (IsBefore x) e xs (ground arith) p, insert-Pairwise e xs ps)
  ]

  pub sort_events-Pairwise : (es : List (Event fl)) → Pairwise IsBefore (sort_events fl es)
  unfolding sort_events
  sort_events-Pairwise [] = tt
  sort_events-Pairwise (e ∷ es) = insert-Pairwise e (sort_events fl es) (sort_events-Pairwise es)

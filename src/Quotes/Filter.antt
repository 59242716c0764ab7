-- ===== src/Quotes/Filter.antt =====
-- `filter_quotes_by_request` of src/protocol/parsers.rs: which quotes of a response are kept.
use tdxrs.Base.{
  ℕ, ◌≡◌, refl, true, false, ◌&&◌, not, List, [], ◌∷◌, map, arith, Bool-cases, ◌⊎◌, inl, inr,
}
use tdxrs.Floats.{Floats}
use tdxrs.Text.{Text}
use tdxrs.Text.Equality.{text_eq→eq, text_eq_refl}
use tdxrs.Quotes.{SecurityQuote, same_key, has, remove, key, keep_allowed, filter_quotes_by_request}

same_key→eq : (a b : ℕ × Text) → same_key a b ≡ true → a ≡ b
same_key→eq (m, c) (m', c') h = ground (arith, text_eq→eq c c')

same_key_refl : (a : ℕ × Text) → same_key a a ≡ true
same_key_refl (m, c) = ground (arith, text_eq_refl c)

-- Two keys are the same to every third one, if they are the same.
has-remove :
    (k j : ℕ × Text) (s : List (ℕ × Text)) → has k (remove j s) ≡ (has k s && not (same_key k j))
unfolding has remove
has-remove k j [] = refl
has-remove k j (x ∷ xs) = elim (Bool-cases (same_key j x)) [
  | inl e ↦ rw (← same_key→eq j x e) (ground (arith, has-remove k j xs, e, same_key_refl j))
  | inr e ↦ elim (Bool-cases (same_key k j)) [
    | inl e2 ↦ rw (same_key→eq k j e2) (ground (arith, has-remove j j xs, e, e2, same_key_refl j))
    | inr e2 ↦ rw (e, e2, has-remove k j xs) (ground arith)
  ]
]

module _ (fl : Floats) where
  abbrev pub keys : List (SecurityQuote fl) → List (ℕ × Text)
  keys = map (key fl)

  -- No key stands in front of itself.
  abbrev pub AreDistinct : List (ℕ × Text) → Type 0
  AreDistinct [] = Unit
  AreDistinct (k ∷ ks) = (has k ks ≡ false) × AreDistinct ks

  -- The quotes of the first list stand in the second, in this order.
  abbrev pub Stand : List (SecurityQuote fl) → List (SecurityQuote fl) → Type 0
  Stand [] ys = Unit
  Stand (x ∷ xs) [] = ⊥
  Stand (x ∷ xs) (y ∷ ys) = ((x ≡ y) × Stand xs ys) ⊎ Stand (x ∷ xs) ys

  has-keep_allowed :
      (k : ℕ × Text) (allowed : List (ℕ × Text)) (rs : List (SecurityQuote fl))
      → has k (keys (keep_allowed fl allowed rs)) ≡ (has k allowed && has k (keys rs))
  unfolding keep_allowed has
  has-keep_allowed k allowed [] = ground arith
  has-keep_allowed k allowed (r ∷ rs) = elim (Bool-cases (has (key fl r) allowed)) [
    | inl e ↦ elim (Bool-cases (same_key k (key fl r))) [
      | inl e2 ↦
          rw (e, keep_allowed, same_key→eq k (key fl r) e2)
            (ground (arith, e, same_key_refl (key fl r)))
      | inr e2 ↦
          rw (e, keep_allowed)
            (ground (
              arith,
              e2,
              has-keep_allowed k (remove (key fl r) allowed) rs,
              has-remove k (key fl r) allowed,
            ))
    ]
    | inr e ↦ elim (Bool-cases (same_key k (key fl r))) [
      | inl e2 ↦
          rw (e, keep_allowed, same_key→eq k (key fl r) e2)
            (ground (arith, e, has-keep_allowed (key fl r) allowed rs))
      | inr e2 ↦ rw (e, keep_allowed) (ground (arith, e2, has-keep_allowed k allowed rs))
    ]
  ]

  keep_allowed-AreDistinct :
      (allowed : List (ℕ × Text)) (rs : List (SecurityQuote fl))
      → AreDistinct (keys (keep_allowed fl allowed rs))
  unfolding keep_allowed
  keep_allowed-AreDistinct allowed [] = tt
  keep_allowed-AreDistinct allowed (r ∷ rs) = elim (Bool-cases (has (key fl r) allowed)) [
    | inl e ↦
        rw (e, keep_allowed)
          (
            ground (
              arith,
              has-keep_allowed (key fl r) (remove (key fl r) allowed) rs,
              has-remove (key fl r) (key fl r) allowed,
              same_key_refl (key fl r),
            ),
            keep_allowed-AreDistinct (remove (key fl r) allowed) rs,
          )
    | inr e ↦ rw (e, keep_allowed) (keep_allowed-AreDistinct allowed rs)
  ]

  Stand-later :
      (xs ys : List (SecurityQuote fl)) (y : SecurityQuote fl) → Stand xs ys → Stand xs (y ∷ ys)
  Stand-later [] ys y h = tt
  Stand-later (x ∷ xs) ys y h = inr h

  keep_allowed-Stand :
      (allowed : List (ℕ × Text)) (rs : List (SecurityQuote fl))
      → Stand (keep_allowed fl allowed rs) rs
  unfolding keep_allowed
  keep_allowed-Stand allowed [] = tt
  keep_allowed-Stand allowed (r ∷ rs) = elim (Bool-cases (has (key fl r) allowed)) [
    | inl e ↦ rw (e, keep_allowed) (inl (refl, keep_allowed-Stand (remove (key fl r) allowed) rs))
    | inr e ↦ rw (e, keep_allowed) (Stand-later _ rs r (keep_allowed-Stand allowed rs))
  ]

  -- What is kept of a response stands in it, in the same order. A market and code is answered in the
  -- result exactly if it was requested and the response has it, and then once only.
  pub filter_quotes_by_request_lem :
      (requested : List (ℕ × Text)) (records : List (SecurityQuote fl))
      → let kept = filter_quotes_by_request fl requested records in
        Stand kept records
        × ((k : ℕ × Text) → has k (keys kept) ≡ (has k requested && has k (keys records)))
        × AreDistinct (keys kept)
  unfolding filter_quotes_by_request
  filter_quotes_by_request_lem requested records = (
    keep_allowed-Stand requested records,
    λ k. has-keep_allowed k requested records,
    keep_allowed-AreDistinct requested records,
  )

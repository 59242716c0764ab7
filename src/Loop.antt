-- ===== src/Loop.antt =====
-- `for _ in 0..count { ... break ... }` with a result vector: the loops of the parsers. A step
-- reads one record and gives the next state, or breaks.
use tdxrs.Base.{
  ℕ, zero, suc, ◌+◌, ◌*◌, ◌≤◌, ◌<◌, ◌≡◌, refl, sym, ap, List, [], ◌∷◌, Option, none, some, arith,
  length, All, Option-cases, ◌⊎◌, inl, inr, Bool-cases, leb,
}
use tdxrs.Errors.{Outcome, ok, err, panic, ◌>>=◌}

module _ {ℓ κ} {S : Type ℓ} {A : Type κ} where
  -- Nothing in the body can fail or panic.
  unfoldable pub collect : ℕ → (S → Option (A × S)) → S → List A
  collect zero step s = []
  collect (suc n) step s = elim (step s) [ none ↦ [] | some (a, s') ↦ a ∷ collect n step s' ]

  -- The body may fail or panic; `ok none` is a break.
  unfoldable pub collect_checked : ℕ → (S → Outcome (Option (A × S))) → S → Outcome (List A)
  collect_checked zero step s = ok []
  collect_checked (suc n) step s = elim (step s) [
    | ok none ↦ ok []
    | ok (some (a, s')) ↦ collect_checked n step s' >>= (λ rest. ok (a ∷ rest))
    | err e ↦ err e
    | panic ↦ panic
  ]

-- What a loop that neither fails nor panics comes to, in at most `n` rounds.
abbrev pub Collects {κ} : {A : Type κ} → (A → Type 0) → ℕ → Outcome (List A) → Type κ
Collects {A} P n r = (xs : List A) × (r ≡ ok xs) × All P xs × (length xs ≤ n)

module _ {ℓ κ} {S : Type ℓ} {A : Type κ} where
  pub length-collect : (n : ℕ) (step : S → Option (A × S)) (s : S) → length (collect n step s) ≤ n
  unfolding collect
  length-collect zero step s = omega arith
  length-collect (suc n) step s = elim (Option-cases (step s)) [
    | inl e ↦ rw (e, collect) (omega arith)
    | inr ((a, s'), e) ↦ rw (e, collect) (omega (arith, length-collect n step s'))
  ]

  -- What each step gives and keeps, the whole list has.
  pub collect-All {μ ν} :
      (I : S → Type μ) (P : A → Type ν) (step : S → Option (A × S))
      → ((s : S) (a : A) (s' : S) → I s → step s ≡ some (a, s') → P a × I s')
      → (n : ℕ) (s : S) → I s
      → All P (collect n step s)
  unfolding collect
  collect-All I P step keep zero s h = tt
  collect-All I P step keep (suc n) s h = elim (Option-cases (step s)) [
    | inl e ↦ rw (e, collect) tt
    | inr ((a, s'), e) ↦
        let k = keep s a s' h e in rw (e, collect) (k.0, collect-All I P step keep n s' k.1)
  ]

  -- A run of the step over records that are all there.
  abbrev pub Run : (S → Option (A × S)) → S → List A → Type (ℓ ⊔ κ)
  Run step s [] = Unit
  Run step s (a ∷ xs) = (s' : S) × (step s ≡ some (a, s')) × Run step s' xs

  pub collect-Run :
      (step : S → Option (A × S)) (xs : List A) (n : ℕ) (s : S)
      → n ≡ length xs
      → Run step s xs
      → collect n step s ≡ xs
  unfolding collect
  collect-Run step [] zero s h r = refl
  collect-Run step [] (suc n) s h r = absurd (omega arith)
  collect-Run step (x ∷ xs) zero s h r = absurd (omega arith)
  collect-Run step (x ∷ xs) (suc n) s h (s', e, r) =
      rw (e, collect) (ap (λ l. x ∷ l) (collect-Run step xs n s' (omega arith) r))

  -- Records of at least `w` bytes, each inside a slice of `len` bytes, fill no more than the slice.
  collect_span :
      (at : S → ℕ) (w len : ℕ) (step : S → Option (A × S))
      → ((s : S) (a : A) (s' : S) → step s ≡ some (a, s') → (at s + w ≤ len) × (at s + w ≤ at s'))
      → (n : ℕ) (s : S) → (collect n step s ≡ []) ⊎ (at s + w * length (collect n step s) ≤ len)
  unfolding collect
  collect_span at w len step wide zero s = inl refl
  collect_span at w len step wide (suc n) s = elim (Option-cases (step s)) [
    | inl e ↦ rw (e, collect) (inl refl)
    | inr ((a, s'), e) ↦
        rw (e, collect) (inr (one s' (wide s a s' e) (collect_span at w len step wide n s')))
  ]
    where
      one :
          (s' : S)
          → (at s + w ≤ len) × (at s + w ≤ at s')
          → (collect n step s' ≡ []) ⊎ (at s' + w * length (collect n step s') ≤ len)
          → at s + w * suc (length (collect n step s')) ≤ len
      one s' (inside, on) (inl e) = rw e (omega arith)
      one s' (inside, on) (inr h) = omega arith

  pub collect_fits :
      (at : S → ℕ) (w len : ℕ) (step : S → Option (A × S))
      → ((s : S) (a : A) (s' : S) → step s ≡ some (a, s') → (at s + w ≤ len) × (at s + w ≤ at s'))
      → (n : ℕ) (s : S) → at s ≤ len
      → at s + w * length (collect n step s) ≤ len
  collect_fits at w len step wide n s h = elim (collect_span at w len step wide n s) [
    | inl e ↦ rw e (omega arith)
    | inr k ↦ k
  ]

  -- A measure that falls with each record is fuel enough: with more, nothing changes.
  module _ (measure : S → ℕ) (step : S → Option (A × S))
      (falls : (s : S) (a : A) (s' : S) → step s ≡ some (a, s') → measure s' < measure s) where
    collect_spent : (n : ℕ) (s : S) → measure s ≤ 0 → collect n step s ≡ []
    unfolding collect
    collect_spent zero s h = refl
    collect_spent (suc n) s h = elim (Option-cases (step s)) [
      | inl e ↦ rw (e, collect) refl
      | inr ((a, s'), e) ↦ absurd (omega (arith, falls s a s' e))
    ]

    pub collect_fuel :
        (n m : ℕ) (s : S) → measure s ≤ n → measure s ≤ m → collect n step s ≡ collect m step s
    unfolding collect
    collect_fuel zero m s hn hm = sym (collect_spent m s hn)
    collect_fuel (suc n) zero s hn hm = collect_spent (suc n) s hm
    collect_fuel (suc n) (suc m) s hn hm = elim (Option-cases (step s)) [
      | inl e ↦ rw (e, collect) refl
      | inr ((a, s'), e) ↦
          rw (e, collect)
            (ap (λ (l : List A). a ∷ l)
              (collect_fuel n m s' (omega (arith, falls s a s' e)) (omega (arith, falls s a s' e))))
    ]

  -- The step broke, or it gave a record with `P` and a state with `I`.
  abbrev pub Gives : (S → Type 0) → (A → Type 0) → Outcome (Option (A × S)) → Type 0
  Gives I P (ok none) = Unit
  Gives I P (ok (some (a, s'))) = P a × I s'
  Gives I P (err e) = ⊥
  Gives I P panic = ⊥

  next_round :
      (I : S → Type 0) (P : A → Type 0) (step : S → Outcome (Option (A × S))) (n : ℕ) (s : S)
      → ((s' : S) → I s' → Collects P n (collect_checked n step s'))
      → (r : Outcome (Option (A × S))) → step s ≡ r
      → Gives I P r
      → Collects P (suc n) (collect_checked (suc n) step s)
  unfolding collect_checked
  next_round I P step n s later (ok none) e k = ([], rw (e, collect_checked) refl, tt, omega arith)
  next_round I P step n s later (ok (some (a, s'))) e (p, i) =
      let (xs, f, all, short) = later s' i in
      (a ∷ xs, rw (e, collect_checked, f) refl, (p, all), omega arith)
  next_round I P step n s later (err e') e k = elim k [ ]
  next_round I P step n s later panic e k = elim k [ ]

  -- If no step panics or fails, the loop does neither.
  pub collect_checked-Collects :
      (I : S → Type 0) (P : A → Type 0) (step : S → Outcome (Option (A × S)))
      → ((s : S) → I s → Gives I P (step s))
      → (n : ℕ) (s : S) → I s
      → Collects P n (collect_checked n step s)
  unfolding collect_checked
  collect_checked-Collects I P step keep zero s h = ([], refl, tt, omega arith)
  collect_checked-Collects I P step keep (suc n) s h =
      next_round I P step n s (collect_checked-Collects I P step keep n) (step s) refl (keep s h)

-- Records of exactly `w` bytes, read without failure while they fit: as many as the count and the
-- slice allow, and no fewer.
module _ {κ} {A : Type κ} (P : A → Type 0) (w len : ℕ) (step : ℕ → Outcome (Option (A × ℕ))) where
  abbrev pub Fills : ℕ → ℕ → List A → Type κ
  Fills n p xs =
      (length xs ≤ n)
      × ((xs ≡ []) ⊎ (p + w * length xs ≤ len))
      × ((length xs ≡ n) ⊎ (len < p + w * length xs + w))

  pub collect_checked-Fills :
      ((p : ℕ) → p + w ≤ len → (a : A) × (step p ≡ ok (some (a, p + w))) × P a)
      → ((p : ℕ) → len < p + w → step p ≡ ok none)
      → (n p : ℕ) → (xs : List A) × (collect_checked n step p ≡ ok xs) × All P xs × Fills n p xs
  unfolding collect_checked
  collect_checked-Fills reads ends zero p = ([], refl, tt, (omega arith, inl refl, inl refl))
  collect_checked-Fills reads ends (suc n) p = elim (Bool-cases (leb (p + w) len)) [
    | inl e ↦
        let (a, e1, pa) = reads p (ground arith) in
        let (xs, e2, all, (few, inside, full)) = collect_checked-Fills reads ends n (p + w) in
        (
          a ∷ xs,
          rw (e1, collect_checked, e2) refl,
          (pa, all),
          (omega arith, inr (room xs (ground arith) inside), more xs full),
        )
    | inr e ↦ (
      [],
      rw (ends p (ground arith), collect_checked) refl,
      tt,
      (omega arith, inl refl, inr (ground arith)),
    )
  ]
    where
      room :
          (xs : List A)
          → p + w ≤ len
          → (xs ≡ []) ⊎ (p + w + w * length xs ≤ len)
          → p + w * suc (length xs) ≤ len
      room xs h (inl e) = rw e (omega arith)
      room xs h (inr k) = omega arith

      more :
          (xs : List A)
          → (length xs ≡ n) ⊎ (len < p + w + w * length xs + w)
          → (suc (length xs) ≡ suc n) ⊎ (len < p + w * suc (length xs) + w)
      more xs (inl e) = inl (ap suc e)
      more xs (inr k) = inr (omega arith)

module _ {ℓ κ} {S : Type ℓ} {A : Type κ} where
  -- A loop whose body neither fails nor panics is the plain one.
  pub collect_checked-ok :
      (step : S → Outcome (Option (A × S))) (plain : S → Option (A × S))
      → ((s : S) → step s ≡ ok (plain s))
      → (n : ℕ) (s : S) → collect_checked n step s ≡ ok (collect n plain s)
  unfolding collect collect_checked
  collect_checked-ok step plain same zero s = refl
  collect_checked-ok step plain same (suc n) s = elim (Option-cases (plain s)) [
    | inl e ↦ rw (collect_checked, collect, same s, e) refl
    | inr ((a, s'), e) ↦
        rw (collect_checked, collect, same s, e, collect_checked-ok step plain same n s') refl
  ]

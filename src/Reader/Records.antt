-- ===== src/Reader/Records.antt =====
-- What the readers of src/reader/daily_bar.rs and src/reader/min_bar.rs return on any bytes.
use tdxrs.Base.{
  ℕ, zero, suc, ◌+◌, ◌*◌, ◌/◌, ◌%◌, ◌≤◌, ◌<◌, ◌≡◌, ◌≢◌, refl, ap, ◌∙◌, true, some, List, [], ◌∷◌,
  ◌==◌, length, get_elem?, arith, Bool-cases, inl, inr,
}
use tdxrs.Errors.{Outcome, ok, err, TdxError}
use tdxrs.Bytes.{Bytes}
use tdxrs.Bytes.Layout.{f32_bits-read_u32}
use tdxrs.Floats.{Floats}
use tdxrs.Reader.{
  records_loop, fixed_records, DailyBarRecord, MinBarRecord, read_daily, read_min, read_lc_min,
  parse_daily_bar, parse_min_bar, parse_lc_min_bar,
}

-- One record for each 32 bytes, the one at `i` read from the bytes at `32 * i`; a file of another
-- length is refused as a whole.
abbrev pub ReadsAll : {A : Type 0} → Bytes → (ℕ → Outcome A) → Outcome (List A) → Type 0
ReadsAll data_ read r =
    (length data_ % 32 ≢ 0 → r ≡ err TdxError.invalid_data)
    × (length data_ % 32 ≡ 0
        → (rs : List _) × (r ≡ ok rs)
          × (32 * length rs ≡ length data_)
          × ((i : ℕ)
              → i < length rs
              → (a : _) × (get_elem? rs i ≡ some a) × (read (i * 32) ≡ ok a)))

module _ {A : Type 0} (data_ : Bytes) (read : ℕ → Outcome A)
    (total : (i : ℕ) → i + 32 ≤ length data_ → (a : A) × (read i ≡ ok a)) where
  -- The first `n` records of the list are those from `i` on.
  abbrev Each : ℕ → ℕ → List A → Type 0
  Each i n rs = (j : ℕ) → j < n → (a : A) × (get_elem? rs j ≡ some a) × (read ((i + j) * 32) ≡ ok a)

  Each-cons :
      (i n : ℕ) (a : A) (rs : List A)
      → read (i * 32) ≡ ok a
      → Each (suc i) n rs
      → Each i (suc n) (a ∷ rs)
  Each-cons i n a rs e each zero lt = (a, refl, ap read (omega arith) ∙ e)
  Each-cons i n a rs e each (suc j) lt =
      let (b, there, e2) = each j (omega arith) in (b, there, ap read (omega arith) ∙ e2)

  records_loop_lem :
      (n i : ℕ)
      → (i + n) * 32 ≤ length data_
      → (rs : List A) × (records_loop n read i ≡ ok rs) × (length rs ≡ n) × Each i n rs
  unfolding records_loop
  records_loop_lem zero i h = ([], refl, refl, λ j lt. absurd (omega arith))
  records_loop_lem (suc n) i h =
      let (a, e) = total (i * 32) (omega arith) in
      let (rs, e2, len, each) = records_loop_lem n (suc i) (omega arith) in
      (a ∷ rs, rw (records_loop, e, e2) refl, omega arith, Each-cons i n a rs e each)

  fixed_records_lem : ReadsAll data_ read (fixed_records data_ read)
  unfolding fixed_records
  fixed_records_lem = (
    λ no. elim (Bool-cases (length data_ % 32 == 0)) [
      | inl e ↦ absurd (no (ground (arith, e)))
      | inr e ↦ rw (fixed_records, e) refl
    ],
    λ whole.
        let (rs, e, len, each) = records_loop_lem (length data_ / 32) 0 (omega (arith, whole)) in
        let test : (length data_ % 32 == 0) ≡ true = ground (arith, whole) in
        (
          rs,
          rw (fixed_records, test) e,
          omega (arith, whole, len),
          λ i lt.
              let (a, there, e2) = each i (omega (arith, len, lt)) in
              (a, there, ap read (omega arith) ∙ e2),
        ),
  )

module _ (fl : Floats) (data_ : Bytes) where
  daily_total :
      (coefficient : Floats.F64 fl) (i : ℕ)
      → i + 32 ≤ length data_
      → (a : DailyBarRecord fl) × (read_daily fl data_ coefficient i ≡ ok a)
  unfolding read_daily
  daily_total coefficient i h = rw (f32_bits-read_u32 data_ (i + 20) (omega arith)) (_, refl)

  min_total : (i : ℕ) → i + 32 ≤ length data_ → (a : MinBarRecord fl) × (read_min fl data_ i ≡ ok a)
  unfolding read_min
  min_total i h = rw (f32_bits-read_u32 data_ (i + 20) (omega arith)) (_, refl)

  lc_total :
      (i : ℕ) → i + 32 ≤ length data_ → (a : MinBarRecord fl) × (read_lc_min fl data_ i ≡ ok a)
  unfolding read_lc_min
  lc_total i h =
      rw
        (
          f32_bits-read_u32 data_ (i + 4) (omega arith),
          f32_bits-read_u32 data_ (i + 8) (omega arith),
          f32_bits-read_u32 data_ (i + 12) (omega arith),
          f32_bits-read_u32 data_ (i + 16) (omega arith),
          f32_bits-read_u32 data_ (i + 20) (omega arith),
        )
        (_, refl)

  -- The three readers, which index without a check, panic on no file: each returns one record for
  -- every 32 bytes, in their order, or refuses a file whose length is not a multiple of 32.
  pub parse_files_lem :
      (coefficient : Floats.F64 fl)
      → ReadsAll data_ (read_daily fl data_ coefficient) (parse_daily_bar fl data_ coefficient)
        × ReadsAll data_ (read_min fl data_) (parse_min_bar fl data_)
        × ReadsAll data_ (read_lc_min fl data_) (parse_lc_min_bar fl data_)
  unfolding parse_daily_bar parse_min_bar parse_lc_min_bar
  parse_files_lem coefficient = (
    fixed_records_lem data_ (read_daily fl data_ coefficient) (daily_total coefficient),
    fixed_records_lem data_ (read_min fl data_) min_total,
    fixed_records_lem data_ (read_lc_min fl data_) lc_total,
  )

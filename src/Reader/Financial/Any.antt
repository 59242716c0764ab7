-- ===== src/Reader/Financial/Any.antt =====
-- What `parse_financial` of src/reader/financial.rs returns on any bytes.
use tdxrs.Base.{
  ℕ, zero, suc, ◌+◌, ◌-◌, ◌&&◌, ◌*◌, ◌/◌, ◌≤◌, ◌<◌, ◌≡◌, refl, ap, ◌∙◌, true, false, List, [], ◌∷◌,
  ◌++◌, ltb, leb, if◌then◌else◌, length, take, drop, min, arith, Bool-cases, inl, inr,
}
use tdxrs.Errors.{ok, err, slice, TdxError}
use tdxrs.Bytes.{Bytes, read_u16, read_u32}
use tdxrs.Bytes.Layout.{f32_bits-read_u32, index_total}
use tdxrs.Text.{trim_nul}
use tdxrs.Text.Utf8.{from_utf8_lossy}
use tdxrs.Reader.Financial.{
  FinancialRecord, u16_bits, fields_loop, read_record, read_item, items_loop, parse_financial,
}

module _ (data_ : Bytes) where
  -- `n` fields, the first of them `i` fields behind `foa`.
  abbrev pub fields_at : ℕ → ℕ → ℕ → List ℕ
  fields_at foa zero i = []
  fields_at foa (suc n) i = read_u32 data_ (foa + i * 4) ∷ fields_at foa n (suc i)

  fields_loop_lem :
      (foa n i : ℕ)
      → foa + (i + n) * 4 ≤ length data_
      → fields_loop data_ foa n i ≡ ok (fields_at foa n i)
  unfolding fields_loop
  fields_loop_lem foa zero i h = refl
  fields_loop_lem foa (suc n) i h =
      rw
        (
          fields_loop,
          f32_bits-read_u32 data_ (foa + i * 4) (omega arith),
          fields_loop_lem foa n (suc i) (omega arith),
        )
        refl

  u16_bits_lem : (p : ℕ) → p + 2 ≤ length data_ → u16_bits data_ p ≡ ok (read_u16 data_ p)
  unfolding u16_bits read_u16
  u16_bits_lem p h = ground (arith, index_total data_ p 0, index_total data_ (p + 1) 0)

  module _ (report_date fields_count : ℕ) where
    -- A record, if it lies inside.
    abbrev pub inside_record : Bytes → ℕ → List FinancialRecord
    inside_record code foa =
        if ltb (length data_) (foa + fields_count * 4)
        then []
        else record {
          code = trim_nul (from_utf8_lossy code);
          report_date = report_date;
          fields = fields_at foa fields_count 0;
        }
          ∷ []

    abbrev pub record_at : ℕ → List FinancialRecord
    record_at p = inside_record (take 6 (drop p data_)) (read_u32 data_ (p + 7))

    -- The records of `n` items, from the item `idx` on.
    abbrev pub records_at : ℕ → ℕ → List FinancialRecord
    records_at zero idx = []
    records_at (suc n) idx = record_at (20 + idx * 11) ++ records_at n (suc idx)

    read_record_lem :
        (code : Bytes) (foa : ℕ)
        → read_record data_ report_date fields_count code foa ≡ ok (inside_record code foa)
    unfolding read_record
    read_record_lem code foa = elim (Bool-cases (ltb (length data_) (foa + fields_count * 4))) [
      | inl e ↦ rw (read_record, e) refl
      | inr e ↦
          let room : foa + (0 + fields_count) * 4 ≤ length data_ = ground (arith, e) in
          rw (read_record, e, fields_loop_lem foa fields_count 0 room) refl
    ]

    read_item_lem :
        (p : ℕ)
        → p + 11 ≤ length data_
        → read_item data_ report_date fields_count p ≡ ok (record_at p)
    unfolding read_item slice
    read_item_lem p h =
        let inside : (leb p (p + 6) && leb (p + 6) (length data_)) ≡ true = ground arith in
        let six : p + 6 - p ≡ 6 = omega arith in
        rw (read_item, inside, six, f32_bits-read_u32 data_ (p + 7) (omega arith))
          (read_record_lem (take 6 (drop p data_)) (read_u32 data_ (p + 7)))

    items_loop_lem :
        (n idx : ℕ)
        → items_loop data_ report_date fields_count n idx
          ≡ ok (records_at (min n ((length data_ - 20) / 11 - idx)) idx)
    unfolding items_loop
    items_loop_lem zero idx =
        ap (λ (n : ℕ). ok (records_at n idx)) {x = 0} {y = min 0 ((length data_ - 20) / 11 - idx)}
          (omega arith)
    items_loop_lem (suc n) idx = elim (Bool-cases (ltb (length data_) (20 + idx * 11 + 11))) [
      | inl e ↦
          let none_left : min (suc n) ((length data_ - 20) / 11 - idx) ≡ 0 = ground (arith, e) in
          rw (items_loop, e, none_left) refl
      | inr e ↦
          let one_more : min (suc n) ((length data_ - 20) / 11 - idx)
              ≡ suc (min n ((length data_ - 20) / 11 - suc idx)) =
            ground (arith, e) in
          rw
            (
              items_loop,
              e,
              read_item_lem (20 + idx * 11) (ground (arith, e)),
              items_loop_lem n (suc idx),
              one_more,
            )
            refl
    ]

-- Fewer than 20 bytes are refused. Otherwise the records are those of the items that are declared and
-- lie inside, in their order, without the items that point outside; the code is the item's, the date
-- the header's, and the fields are the numbers at the item's offset. The parser never panics.
pub parse_financial_lem :
    (data_ : Bytes)
    → (length data_ < 20 → parse_financial data_ ≡ err TdxError.invalid_data)
      × (20 ≤ length data_
          → parse_financial data_
            ≡ ok (
                records_at data_
                  (read_u32 data_ 2)
                  (read_u32 data_ 12 / 4)
                  (min (read_u16 data_ 6) ((length data_ - 20) / 11))
                  0))
unfolding parse_financial
parse_financial_lem data_ = (
  λ short. let e : ltb (length data_) 20 ≡ true = ground arith in rw e refl,
  λ long.
      let e : ltb (length data_) 20 ≡ false = ground arith in
      rw
        (
          e,
          f32_bits-read_u32 data_ 2 (omega arith),
          u16_bits_lem data_ 6 (omega arith),
          f32_bits-read_u32 data_ 12 (omega arith),
        )
        (items_loop_lem data_ (read_u32 data_ 2) (read_u32 data_ 12 / 4) (read_u16 data_ 6) 0
          ∙ ap
              (λ (n : ℕ). ok (
                records_at data_ (read_u32 data_ 2) (read_u32 data_ 12 / 4)
                  (min (read_u16 data_ 6) n) 0))
              {x = (length data_ - 20) / 11 - 0} {y = (length data_ - 20) / 11} (omega arith)),
)

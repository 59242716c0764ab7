-- ===== src/Reader/Financial.antt =====
-- `parse_financial` of src/reader/financial.rs. A field, an `f32`, is its 32 bits.
pub mod Any
use tdxrs.Base.{ℕ, zero, suc, ◌+◌, ◌*◌, ◌/◌, true, false, List, [], ◌∷◌, ◌++◌, ltb, length}
use tdxrs.Errors.{Outcome, ok, err, index, slice, fail_if, ◌>>=◌, ◌>>◌, TdxError}
use tdxrs.Bytes.{Bytes, u16_of, f32_bits}
use tdxrs.Text.{Text, trim_nul}
use tdxrs.Text.Utf8.{from_utf8_lossy}

pub record FinancialRecord : Type 0 where
  pub code : Text
  pub report_date : ℕ
  pub fields : List ℕ

-- `u32::from_le_bytes`, which reads the four bytes as `f32_bits` does.
abbrev u32_bits : Bytes → ℕ → Outcome ℕ
u32_bits = f32_bits

unfoldable pub u16_bits : Bytes → ℕ → Outcome ℕ
u16_bits data_ p = do a ← index data_ p; b ← index data_ (p + 1); ok (u16_of a b)

-- The loop over the fields of a record, `i` being the first index.
unfoldable pub fields_loop : Bytes → ℕ → ℕ → ℕ → Outcome (List ℕ)
fields_loop data_ foa zero i = ok []
fields_loop data_ foa (suc n) i = f32_bits data_ (foa + i * 4) >>= λ val.
    fields_loop data_ foa n (suc i) >>= λ rest. ok (val ∷ rest)

-- The record at `foa`, or none if it does not lie inside.
unfoldable pub read_record : Bytes → ℕ → ℕ → Bytes → ℕ → Outcome (List FinancialRecord)
unfolding fields_loop
read_record data_ report_date fields_count code foa =
    elim (ltb (length data_) (foa + fields_count * 4)) [
      | true ↦ ok []
      | false ↦ fields_loop data_ foa fields_count 0 >>= λ fields. ok (
          record {
            code = trim_nul (from_utf8_lossy code);
            report_date = report_date;
            fields = fields;
          }
          ∷ [])
    ]

-- An item of the index, with its record.
unfoldable pub read_item : Bytes → ℕ → ℕ → ℕ → Outcome (List FinancialRecord)
unfolding read_record
read_item data_ report_date fields_count index_offset =
    slice data_ index_offset (index_offset + 6) >>= λ code.
    u32_bits data_ (index_offset + 7) >>= λ foa. read_record data_ report_date fields_count code foa

-- The loop over the index, `idx` being the first item; a break where an item is not there.
unfoldable pub items_loop : Bytes → ℕ → ℕ → ℕ → ℕ → Outcome (List FinancialRecord)
unfolding read_item
items_loop data_ report_date fields_count zero idx = ok []
items_loop data_ report_date fields_count (suc n) idx =
    elim (ltb (length data_) (20 + idx * 11 + 11)) [
      | true ↦ ok []
      | false ↦ read_item data_ report_date fields_count (20 + idx * 11) >>= λ here.
          items_loop data_ report_date fields_count n (suc idx) >>= λ rest. ok (here ++ rest)
    ]

-- The message about a cut index is left out.
unfoldable pub parse_financial : Bytes → Outcome (List FinancialRecord)
unfolding items_loop u16_bits
parse_financial data_ = do
  fail_if (ltb (length data_) 20) TdxError.invalid_data
  report_date ← u32_bits data_ 2
  max_count ← u16_bits data_ 6
  report_size ← u32_bits data_ 12
  items_loop data_ report_date (report_size / 4) max_count 0

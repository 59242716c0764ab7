-- ===== src/Reader.antt =====
-- src/reader/daily_bar.rs and src/reader/min_bar.rs: files of records of 32 bytes each. Reading the
-- file from the disk is left out; the data are its bytes.
pub mod Records
pub mod Block
pub mod Financial
use tdxrs.Base.{ℕ, zero, suc, ◌+◌, ◌*◌, ◌/◌, ◌%◌, List, [], ◌∷◌, if◌then◌else◌, ◌==◌, length}
use tdxrs.Base.Int.{ℤ}
use tdxrs.Errors.{Outcome, ok, err, ◌>>=◌, TdxError}
use tdxrs.Bytes.{Bytes, read_u16, read_u32, f32_bits}
use tdxrs.Floats.{Floats}
use tdxrs.Text.{Text}
use tdxrs.Dates.{
  Date, DateTime, decode_date, decode_date_u16, decode_time, format_date, format_datetime,
}

-- The loop `for i in 0..count`, `i` being the first index.
unfoldable pub records_loop : {A : Type 0} → ℕ → (ℕ → Outcome A) → ℕ → Outcome (List A)
records_loop zero read i = ok []
records_loop (suc n) read i =
    read (i * 32) >>= λ r. records_loop n read (suc i) >>= λ rest. ok (r ∷ rest)

-- What the three parsers have in common.
unfoldable pub fixed_records : {A : Type 0} → Bytes → (ℕ → Outcome A) → Outcome (List A)
unfolding records_loop
fixed_records data_ read =
    if length data_ % 32 == 0
    then records_loop (length data_ / 32) read 0
    else err TdxError.invalid_data

module _ (fl : Floats) where
  open fl use {F64, of_int, of_f32, mul, div, literal}

  pub record DailyBarRecord : Type 0 where
    pub date : Text
    pub opening : F64
    pub high : F64
    pub low : F64
    pub close : F64
    pub amount : F64
    pub volume : F64
    pub on_day : Date

  -- `MinBarRecord` and `LcMinBarRecord`, which have the same fields.
  pub record MinBarRecord : Type 0 where
    pub date : Text
    pub opening : F64
    pub high : F64
    pub low : F64
    pub close : F64
    pub amount : F64
    pub volume : F64
    pub at_time : DateTime

  abbrev pub whole : Bytes → ℕ → F64
  whole data_ p = of_int (ℤ.pos (read_u32 data_ p))

  unfoldable pub read_daily : Bytes → F64 → ℕ → Outcome DailyBarRecord
  read_daily data_ coefficient offset = f32_bits data_ (offset + 20) >>= λ bits.
      let day = decode_date (read_u32 data_ offset) in
      ok (record {
        date = format_date day.year day.month day.day;
        opening = mul (whole data_ (offset + 4)) coefficient;
        high = mul (whole data_ (offset + 8)) coefficient;
        low = mul (whole data_ (offset + 12)) coefficient;
        close = mul (whole data_ (offset + 16)) coefficient;
        amount = of_f32 bits;
        volume = whole data_ (offset + 24);
        on_day = day;
      })

  unfoldable pub parse_daily_bar : Bytes → F64 → Outcome (List DailyBarRecord)
  unfolding fixed_records read_daily
  parse_daily_bar data_ coefficient = fixed_records data_ (read_daily data_ coefficient)

  -- The date and the time of a record of minutes.
  abbrev pub time_of : Bytes → ℕ → DateTime
  time_of data_ offset =
      let (hour, minute) = decode_time (read_u16 data_ (offset + 2)) in
      record { date = decode_date_u16 (read_u16 data_ offset); hour = hour; minute = minute }

  abbrev pub format_time_of : DateTime → Text
  format_time_of t = format_datetime t.year t.month t.day t.hour t.minute

  abbrev pub hundredths : Bytes → ℕ → F64
  hundredths data_ p = div (whole data_ p) (literal 100 0)

  unfoldable pub read_min : Bytes → ℕ → Outcome MinBarRecord
  read_min data_ offset = f32_bits data_ (offset + 20) >>= λ bits. ok (record {
    date = format_time_of (time_of data_ offset);
    opening = hundredths data_ (offset + 4);
    high = hundredths data_ (offset + 8);
    low = hundredths data_ (offset + 12);
    close = hundredths data_ (offset + 16);
    amount = of_f32 bits;
    volume = whole data_ (offset + 24);
    at_time = time_of data_ offset;
  })

  unfoldable pub parse_min_bar : Bytes → Outcome (List MinBarRecord)
  unfolding fixed_records read_min
  parse_min_bar data_ = fixed_records data_ (read_min data_)

  unfoldable pub read_lc_min : Bytes → ℕ → Outcome MinBarRecord
  read_lc_min data_ offset = do
    opening ← f32_bits data_ (offset + 4)
    high ← f32_bits data_ (offset + 8)
    low ← f32_bits data_ (offset + 12)
    close ← f32_bits data_ (offset + 16)
    amount ← f32_bits data_ (offset + 20)
    ok (record {
      date = format_time_of (time_of data_ offset);
      opening = of_f32 opening;
      high = of_f32 high;
      low = of_f32 low;
      close = of_f32 close;
      amount = of_f32 amount;
      volume = whole data_ (offset + 24);
      at_time = time_of data_ offset;
    })

  unfoldable pub parse_lc_min_bar : Bytes → Outcome (List MinBarRecord)
  unfolding fixed_records read_lc_min
  parse_lc_min_bar data_ = fixed_records data_ (read_lc_min data_)

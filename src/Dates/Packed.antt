-- ===== src/Dates/Packed.antt =====
-- The two packed date formats.
use tdxrs.Base.{ℕ, ◌+◌, ◌-◌, ◌*◌, ◌≤◌, ◌<◌, ◌≡◌, arith}
use tdxrs.Dates.{Date, decode_date, decode_date_u16, from_packed, from_digits}

-- The packed form of the comment, `(year - 2004) * 2048 + month * 100 + day`.
unfoldable pub pack_date : Date → ℕ
pack_date d = (d.year - 2004) * 2048 + d.month * 100 + d.day

-- The form `YYYYMMDD`.
unfoldable pub digits_of : Date → ℕ
digits_of d = d.year * 10000 + d.month * 100 + d.day

pub record IsCalendar (d : Date) : Type 0 where
  pub month_fits : d.month ≤ 12
  pub day_fits : d.day ≤ 31

pub from_packed_lem : (d : Date) → IsCalendar d → 2004 ≤ d.year → from_packed (pack_date d) ≡ d
unfolding pack_date
from_packed_lem d c h = ground arith

pub from_digits_lem : (d : Date) → IsCalendar d → from_digits (digits_of d) ≡ d
unfolding digits_of
from_digits_lem d c = ground arith

-- `decode_date` reads both formats: a packed date from 2004 to 2051, and `YYYYMMDD` from year 11 on.
decode_date_both :
    (d : Date)
    → IsCalendar d
    → (2004 ≤ d.year → d.year ≤ 2051 → decode_date (pack_date d) ≡ d)
      × (11 ≤ d.year → decode_date (digits_of d) ≡ d)
unfolding decode_date pack_date digits_of
decode_date_both d c = (λ lo hi. ground arith, λ lo. ground arith)

-- In the 16 bits of a minute file the packed form reaches to the end of 2035, and is read back.
pub decode_date_u16_lem :
    (d : Date)
    → IsCalendar d
    → 2004 ≤ d.year
    → d.year ≤ 2035
    → (pack_date d < 65536) × (decode_date_u16 (pack_date d) ≡ d)
unfolding decode_date_u16 pack_date
decode_date_u16_lem d c lo hi = (omega arith, ground arith)

-- ===== src/Bytes.antt =====
-- The little-endian readers of src/constants.rs. A byte slice is a list of numbers below 256.
pub mod Layout
use tdxrs.Base.{ℕ, ◌+◌, ◌*◌, ◌^◌, ◌<◌, List, ltb, if◌then◌else◌, length, get_or, All}
use tdxrs.Errors.{Outcome, ok, index, ◌>>=◌}

abbrev pub IsByte : ℕ → Type 0
IsByte b = b < 256

abbrev pub Bytes : Type 0
Bytes = List ℕ

-- `data[p]` where the position is known to be inside.
abbrev pub byte : Bytes → ℕ → ℕ
byte bytes p = get_or bytes p 0

abbrev pub u16_of : ℕ → ℕ → ℕ
u16_of a b = a + 256 * b

abbrev pub u32_of : ℕ → ℕ → ℕ → ℕ → ℕ
u32_of a b c d = a + 256 * b + 65536 * c + 16777216 * d

-- Out of bounds these two answer 0.
unfoldable pub read_u16 : Bytes → ℕ → ℕ
read_u16 bytes p =
    if ltb (length bytes) (p + 2) then 0 else u16_of (byte bytes p) (byte bytes (p + 1))

unfoldable pub read_u32 : Bytes → ℕ → ℕ
read_u32 bytes p =
    if ltb (length bytes) (p + 4)
    then 0
    else u32_of (byte bytes p) (byte bytes (p + 1)) (byte bytes (p + 2)) (byte bytes (p + 3))

-- `get_byte`, and the four bytes of `read_f32` and `read_i32`, index without a check.
unfoldable pub get_byte : Bytes → ℕ → Outcome ℕ
get_byte bytes p = index bytes p

-- The bits of `f32::from_le_bytes([data[p], ..., data[p + 3]])`.
unfoldable pub f32_bits : Bytes → ℕ → Outcome ℕ
f32_bits bytes p = do
  a ← index bytes p
  b ← index bytes (p + 1)
  c ← index bytes (p + 2)
  d ← index bytes (p + 3)
  ok (u32_of a b c d)

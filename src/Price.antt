-- ===== src/Price.antt =====
-- `get_price` of src/helpers.rs: a signed integer in 1 to 10 bytes. The first byte holds a
-- continuation bit, the sign and six bits, each further byte a continuation bit and seven bits,
-- lowest first. The arithmetic is that of a release build, which wraps around.
pub mod Bounds
pub mod Position
pub mod RoundTrip
use tdxrs.Base.{
  ℕ, ◌+◌, ◌-◌, ◌*◌, ◌%◌, ◌^◌, Bool, List, [], ◌∷◌, Option, none, some, not, leb, ◌==◌,
  if◌then◌else◌, length, drop, bit_and, bit_or,
}
use tdxrs.Base.Int.{ℤ, signed64}
use tdxrs.Bytes.{Bytes}

-- The loop over the continuation bytes. The list is what follows the byte at `p`; the result is
-- the bit pattern read so far and the position of the last byte, `none` where the source returns
-- `(0, data.len())`.
unfoldable pub more_bytes : Bytes → ℕ → ℕ → ℕ → Option (ℕ × ℕ)
more_bytes [] p result shift = none
more_bytes (b ∷ rest) p result shift =
    let result' = bit_or result (bit_and b 0x7f * 2 ^ shift % 2 ^ 64) in
    let later = more_bytes rest (p + 1) result' (shift + 7) in
    if leb 64 shift then none else if bit_and b 0x80 == 0 then some (result', p + 1) else later

-- `if sign { -result } else { result }` on the bit pattern of an `i64`.
unfoldable pub with_sign : Bool → ℕ → ℤ
unfolding signed64
with_sign negative result = signed64 (if negative then (2 ^ 64 - result) % 2 ^ 64 else result)

unfoldable pub price_value : Bool → Option (ℕ × ℕ) → ℕ → ℤ × ℕ
price_value negative none len = (ℤ.pos 0, len)
price_value negative (some (result, last)) len = (with_sign negative result, last + 1)

-- `get_price` on the bytes from position `p` on, `len` being the length of the whole slice.
unfoldable pub price_at : Bytes → ℕ → ℕ → ℤ × ℕ
price_at [] p len = (ℤ.pos 0, len)
price_at (first ∷ rest) p len =
    let result = bit_and first 0x3f in
    let decoded =
      if bit_and first 0x80 == 0 then some (result, p) else more_bytes rest p result 6 in
    price_value (not (bit_and first 0x40 == 0)) decoded len

unfoldable pub get_price : Bytes → ℕ → ℤ × ℕ
get_price bytes p = price_at (drop p bytes) p (length bytes)

-- ===== src/Price/Position.antt =====
-- Where `get_price` leaves the position, exactly, on any bytes.
use tdxrs.Base.{
  ℕ, zero, suc, ◌+◌, ◌*◌, ◌%◌, ◌^◌, ◌<◌, ◌≡◌, refl, [], ◌∷◌, Option, none, some, arith, Bool,
  length, drop, All, All-drop, ltb, if◌then◌else◌, not, bit_and, ◌==◌,
}
use tdxrs.Base.Bits.{low_six, top_bit}
use tdxrs.Bytes.{Bytes, IsByte}
use tdxrs.Price.{more_bytes, price_value, price_at, get_price}
use tdxrs.Price.Bounds.{kept, kept_bounds, shift_seven, more_bytes_step, more_bytes_end}

-- The number of bytes up to the first one whose top bit is clear, looking at `n` bytes at most.
unfoldable pub span : ℕ → Bytes → Option ℕ
span zero bytes = none
span (suc n) [] = none
span (suc n) (b ∷ rest) =
    if ltb b 128 then some 1 else elim (span n rest) [ none ↦ none | some m ↦ some (m + 1) ]

-- The position behind an integer of that span, or the end of the slice.
abbrev pub position : Option ℕ → ℕ → ℕ → ℕ
position none p len = len
position (some m) p len = p + m

abbrev pub last_byte : Option (ℕ × ℕ) → Option ℕ
last_byte none = none
last_byte (some (r, q)) = some q

abbrev pub shift_by : ℕ → Option ℕ → Option ℕ
shift_by p none = none
shift_by p (some m) = some (p + m)

more_bytes-span :
    (rest : Bytes) (p acc k n : ℕ)
    → All IsByte rest
    → k + n ≡ 9
    → acc < 2 ^ (6 + 7 * k)
    → last_byte (more_bytes rest p acc (6 + 7 * k)) ≡ shift_by p (span n rest)
unfolding span
more_bytes-span [] p acc k zero hs e ha = unfold more_bytes in refl
more_bytes-span [] p acc k (suc n) hs e ha = unfold more_bytes in refl
more_bytes-span (b ∷ rest) p acc k zero hs e ha = rw (more_bytes_end k b rest p acc (omega arith))
more_bytes-span (b ∷ rest) p acc k (suc n) hs e ha = ground (
  arith,
  more_bytes_step k b rest p acc,
  kept_bounds k (b % 128) acc,
  shift_seven (6 + 7 * k),
  more_bytes-span rest (p + 1) (acc + kept k (b % 128) * 2 ^ (6 + 7 * k)) (suc k) n,
)

price_value-position :
    (p len : ℕ) (negative : Bool) (decoded : Option (ℕ × ℕ)) (m : Option ℕ)
    → last_byte decoded ≡ shift_by p m
    → (price_value negative decoded len).1 ≡ position (shift_by 1 m) p len
unfolding price_value
price_value-position p len negative decoded m e = ground arith

price_at-position :
    (bytes : Bytes) (p len : ℕ)
    → All IsByte bytes
    → (price_at bytes p len).1 ≡ position (span 10 bytes) p len
unfolding price_at span
price_at-position [] p len hs = unfold price_value in refl
price_at-position (first ∷ rest) p len hs = ground (
  arith,
  top_bit first,
  low_six first,
  more_bytes-span rest p (first % 64) 0 9,
  price_value-position p len (not (bit_and first 0x40 == 0))
      (if bit_and first 0x80 == 0
        then some (bit_and first 0x3f, p)
        else more_bytes rest p (bit_and first 0x3f) 6)
      (if ltb first 128 then some 0 else span 9 rest),
)

-- Where `get_price` leaves the position, exactly: behind the first byte whose top bit is clear, if
-- that is one of the ten bytes from `p` on, and else at the end of the slice.
pub get_price-position :
    (bytes : Bytes) (p : ℕ)
    → All IsByte bytes
    → (get_price bytes p).1 ≡ position (span 10 (drop p bytes)) p (length bytes)
unfolding get_price
get_price-position bytes p hs =
    price_at-position (drop p bytes) p (length bytes) (All-drop IsByte p bytes hs)

-- ===== src/Price/RoundTrip.antt =====
-- The encoding that the comment of `get_price` describes, and that `get_price` reads it back.
use native.Mathlib.Nat.{pow-suc}
use tdxrs.Base.{
  ℕ, zero, suc, ◌+◌, ◌*◌, ◌/◌, ◌%◌, ◌^◌, ◌≤◌, ◌<◌, ◌≡◌, refl, ap, [], ◌∷◌, ◌++◌, Bool, some, arith,
  length, ltb, if◌then◌else◌, drop-append, All, Bool-cases, inl, inr, not, bit_and, ◌==◌,
}
use tdxrs.Base.Int.{ℤ, pos_part, neg_part, signed64}
use tdxrs.Base.Bits.{low_six, top_bit, sign_bit}
use tdxrs.Bytes.{Bytes, IsByte}
use tdxrs.Price.{more_bytes, with_sign, price_value, price_at, get_price}
use tdxrs.Price.Bounds.{kept, shift_seven, more_bytes_step}

-- Continuation bytes for `w`, lowest group first, at most `k + 1` of them.
unfoldable pub groups : ℕ → ℕ → Bytes
groups zero w = w ∷ []
groups (suc k) w =
    let rest = groups k (w / 128) in if ltb w 128 then w ∷ [] else (128 + w % 128) ∷ rest

-- `[continuation][sign][6 bits]`, then `[continuation][7 bits]` as often as needed.
unfoldable pub encode : ℕ → ℕ → Bytes
encode sign m =
    let rest = groups 8 (m / 64) in
    if ltb m 64 then (64 * sign + m) ∷ [] else (128 + 64 * sign + m % 64) ∷ rest

unfoldable pub encode_price : ℤ → Bytes
encode_price (ℤ.pos n) = encode 0 n
encode_price (ℤ.negsuc n) = encode 1 (suc n)

abbrev pub IsEncodable : ℤ → Type 0
IsEncodable v = (pos_part v < 2 ^ 63) × (neg_part v < 2 ^ 63)

-- The lowest group of `w` and the rest, both counted from bit `s`.
lowest_group : (s w : ℕ) → w % 128 * 2 ^ s + w / 128 * 2 ^ (s + 7) ≡ w * 2 ^ s
lowest_group s w =
    let whole : (w / 128 * 128 + w % 128) * 2 ^ s ≡ w * 2 ^ s = ap (λ d. d * 2 ^ s) (omega arith) in
    omega (arith, whole, ap (λ (d : ℕ). w / 128 * d) (shift_seven s))

-- The whole of `w`, or its lowest group, is kept at the place of continuation byte `k`.
kept_whole : (k w acc : ℕ) → k ≤ 8 → acc + w * 2 ^ (6 + 7 * k) < 2 ^ 63 → kept k (w % 128) ≡ w % 128
unfolding kept
kept_whole k w acc h fits = elim (Bool-cases (ltb k 8)) [
  | inl low ↦ rw low refl
  | inr high ↦
      let e : k ≡ 8 = ground arith in
      let small : acc + w * 2 ^ 62 < 2 ^ 63 = rw e at fits in rw high (omega arith)
]

seven_bits_lt : (x acc t : ℕ) → x < 128 → acc < t → acc + x * t < 128 * t
seven_bits_lt x acc t hx ha = grind arith

more_bytes-groups :
    (n k w acc p : ℕ) (rest : Bytes)
    → k + n ≡ 8
    → w < 128 ^ suc n
    → acc < 2 ^ (6 + 7 * k)
    → acc + w * 2 ^ (6 + 7 * k) < 2 ^ 63
    → more_bytes (groups n w ++ rest) p acc (6 + 7 * k)
      ≡ some (acc + w * 2 ^ (6 + 7 * k), p + length (groups n w))
unfolding groups
more_bytes-groups zero k w acc p rest e hw ha fits =
    ground (arith, more_bytes_step k w rest p acc, kept_whole k w acc)
more_bytes-groups (suc n) k w acc p rest e hw ha fits = ground (
  arith,
  kept_whole k w acc,
  more_bytes_step k w rest p acc,
  more_bytes_step k (128 + w % 128) (groups n (w / 128) ++ rest) p acc,
  lowest_group (6 + 7 * k) w,
  shift_seven (6 + 7 * k),
  seven_bits_lt (w % 128) acc (2 ^ (6 + 7 * k)),
  pow-suc 128 (suc n),
  more_bytes-groups n (suc k) (w / 128) (acc + w % 128 * 2 ^ (6 + 7 * k)) (p + 1) rest,
)

-- The integer with that sign and magnitude.
abbrev pub signed_magnitude : ℕ → ℕ → ℤ
signed_magnitude zero m = ℤ.pos m
signed_magnitude (suc _) zero = ℤ.pos 0
signed_magnitude (suc _) (suc m) = ℤ.negsuc m

with_sign_lem :
    (sign m : ℕ) (negative : Bool)
    → sign ≤ 1
    → m < 2 ^ 63
    → negative ≡ not (sign == 0)
    → with_sign negative m ≡ signed_magnitude sign m
unfolding with_sign signed64
with_sign_lem zero m negative h hm e = ground arith
with_sign_lem (suc n) zero negative h hm e = ground arith
with_sign_lem (suc n) (suc m) negative h hm e = ground arith

price_at-encode :
    (sign m : ℕ) (rest : Bytes) (p len : ℕ)
    → sign ≤ 1
    → m < 2 ^ 63
    → price_at (encode sign m ++ rest) p len ≡ (signed_magnitude sign m, p + length (encode sign m))
unfolding price_at encode price_value
price_at-encode sign m rest p len hs hm = elim (Bool-cases (ltb m 64)) [
  | inl small ↦ rw small (
      ground (
        arith,
        low_six (64 * sign + m),
        top_bit (64 * sign + m),
        sign_bit (64 * sign + m),
        with_sign_lem sign m (not (bit_and (64 * sign + m) 0x40 == 0)),
      ))
  | inr large ↦ rw large (
      ground (
        arith,
        low_six (128 + 64 * sign + m % 64),
        top_bit (128 + 64 * sign + m % 64),
        sign_bit (128 + 64 * sign + m % 64),
        more_bytes-groups 8 0 (m / 64) (m % 64) p rest,
        with_sign_lem sign m (not (bit_and (128 + 64 * sign + m % 64) 0x40 == 0)),
      ))
]

pub price_at-encode_price :
    (v : ℤ) (rest : Bytes) (p len : ℕ)
    → IsEncodable v
    → price_at (encode_price v ++ rest) p len ≡ (v, p + length (encode_price v))
unfolding encode_price
price_at-encode_price (ℤ.pos n) rest p len h = price_at-encode 0 n rest p len (omega arith) h.0
price_at-encode_price (ℤ.negsuc n) rest p len h =
    price_at-encode 1 (suc n) rest p len (omega arith) h.1

-- Every `i64` but the least one is read back from its encoding, wherever that stands in a slice:
-- `get_price` gives the value and the position behind the encoding.
pub get_price-encode_price :
    (v : ℤ) (front rest : Bytes)
    → IsEncodable v
    → get_price (front ++ (encode_price v ++ rest)) (length front)
      ≡ (v, length front + length (encode_price v))
unfolding get_price
get_price-encode_price v front rest h =
    rw (drop-append front (encode_price v ++ rest) (length front) refl)
      (price_at-encode_price v rest (length front) _ h)

groups-IsByte : (n w : ℕ) → w < 128 ^ suc n → All IsByte (groups n w)
unfolding groups
groups-IsByte zero w h = omega arith
groups-IsByte (suc n) w h = ground (arith, pow-suc 128 (suc n), groups-IsByte n (w / 128))

length-groups : (n w : ℕ) → (1 ≤ length (groups n w)) × (length (groups n w) ≤ n + 1)
unfolding groups
length-groups zero w = omega arith
length-groups (suc n) w = ground (arith, length-groups n (w / 128))

-- An encoding has 1 to 10 bytes.
pub length-encode_price : (v : ℤ) → (1 ≤ length (encode_price v)) × (length (encode_price v) ≤ 10)
unfolding encode_price encode
length-encode_price (ℤ.pos n) = ground (arith, length-groups 8 (n / 64))
length-encode_price (ℤ.negsuc n) = ground (arith, length-groups 8 (suc n / 64))

pub encode_price-IsByte : (v : ℤ) → IsEncodable v → All IsByte (encode_price v)
unfolding encode_price encode
encode_price-IsByte (ℤ.pos n) h = ground (arith, groups-IsByte 8 (n / 64))
encode_price-IsByte (ℤ.negsuc n) h = ground (arith, groups-IsByte 8 (suc n / 64))

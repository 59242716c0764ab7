-- ===== src/Price/Bounds.antt =====
-- `get_price` on any bytes: where it leaves the position, and the range of its value.
use native.Mathlib.Nat.{pow-le-pow_right}
use native.Mathlib.Numerals.{towards_suc}
use tdxrs.Base.{
  ℕ, suc, ◌+◌, ◌-◌, ◌*◌, ◌%◌, ◌^◌, ◌≤◌, ◌<◌, ◌≡◌, refl, [], ◌∷◌, Option, none, some, arith, Bool,
  true, false, length, length-drop, drop, All, All-drop, bit_and, bit_or, ltb, if◌then◌else◌,
  Bool-cases, inl, inr, ◌⊎◌, drop_past,
}
use tdxrs.Base.Int.{ℤ, IsI64, signed64-IsI64}
use tdxrs.Base.Bits.{low_seven, low_six, top_bit, bit_or_disjoint}
use tdxrs.Bytes.{Bytes, IsByte}
use tdxrs.Price.{more_bytes, with_sign, price_value, price_at, get_price}

-- The seven bits `x` of a byte stay whole when they are shifted to the place of the `k`-th
-- continuation byte; of the last byte two bits remain.
unfoldable pub kept : ℕ → ℕ → ℕ
kept k x = if ltb k 8 then x else x % 4

pub pow_six_le : (k : ℕ) → k ≤ 7 → 2 ^ (6 + 7 * k) ≤ 2 ^ 55
pow_six_le k h = pow-le-pow_right {n = 2} (omega arith) {i = 6 + 7 * k} {j = 55} (omega arith)

pub shift_seven : (s : ℕ) → 2 ^ (s + 7) ≡ 128 * 2 ^ s
shift_seven s = simp towards_suc (omega arith)

low_product : (x t : ℕ) → x < 128 → t ≤ 2 ^ 55 → x * t ≤ 127 * 2 ^ 55
low_product x t hx ht = grind arith

seven_bits : (x t : ℕ) → x < 128 → x * t ≤ 127 * t
seven_bits x t hx = grind arith

shifted_kept :
    (k x : ℕ) → k ≤ 8 → x < 128 → x * 2 ^ (6 + 7 * k) % 2 ^ 64 ≡ kept k x * 2 ^ (6 + 7 * k)
unfolding kept
shifted_kept k x h hx = elim (Bool-cases (ltb k 8)) [
  | inl low ↦
      rw low (omega (arith, low_product x (2 ^ (6 + 7 * k)) hx (pow_six_le k (ground arith))))
  | inr high ↦ let e : k ≡ 8 = ground arith in rw e (omega arith)
]

pub kept_bounds :
    (k x acc : ℕ)
    → k ≤ 8
    → x < 128
    → acc < 2 ^ (6 + 7 * k)
    → (acc + kept k x * 2 ^ (6 + 7 * k) < 2 ^ 64)
      × (acc + kept k x * 2 ^ (6 + 7 * k) < 2 ^ (6 + 7 * k + 7))
unfolding kept
kept_bounds k x acc h hx ha = elim (Bool-cases (ltb k 8)) [
  | inl low ↦ rw low (
      omega (
        arith,
        low_product x (2 ^ (6 + 7 * k)) hx (pow_six_le k (ground arith)),
        pow_six_le k (ground arith),
        shift_seven (6 + 7 * k),
        seven_bits x (2 ^ (6 + 7 * k)) hx,
      ))
  | inr high ↦
      let e : k ≡ 8 = ground arith in let low : acc < 2 ^ 62 = rw e at ha in rw e (omega arith)
]

-- One round of the loop on the pattern: the bits read so far and the byte's, side by side.
joined :
    (k b acc : ℕ)
    → k ≤ 8
    → b < 256
    → acc < 2 ^ (6 + 7 * k)
    → bit_or acc (bit_and b 0x7f * 2 ^ (6 + 7 * k) % 2 ^ 64)
      ≡ acc + kept k (b % 128) * 2 ^ (6 + 7 * k)
joined k b acc h hb ha =
    rw (low_seven b hb, shifted_kept k (b % 128) h (omega arith))
      (bit_or_disjoint (6 + 7 * k) acc (kept k (b % 128)) ha)

-- The loop, one round at a time, in plain arithmetic.
pub more_bytes_step :
    (k b : ℕ) (rest : Bytes) (p acc : ℕ)
    → k ≤ 8
    → b < 256
    → acc < 2 ^ (6 + 7 * k)
    → more_bytes (b ∷ rest) p acc (6 + 7 * k) ≡ (
        let acc' = acc + kept k (b % 128) * 2 ^ (6 + 7 * k) in
        if ltb b 128 then some (acc', p + 1) else more_bytes rest (p + 1) acc' (6 + 7 * suc k))
unfolding more_bytes
more_bytes_step k b rest p acc h hb ha =
    let next : 6 + 7 * suc k ≡ 6 + 7 * k + 7 = omega arith in
    rw (next, joined k b acc h hb ha) (ground (arith, top_bit b hb))

pub more_bytes_end :
    (k b : ℕ) (rest : Bytes) (p acc : ℕ) → 9 ≤ k → more_bytes (b ∷ rest) p acc (6 + 7 * k) ≡ none
unfolding more_bytes
more_bytes_end k b rest p acc h = ground arith

-- The loop reads at most nine bytes, stays inside the slice, and its pattern has 64 bits.
more_bytes_bounds :
    (rest : Bytes) (p acc k r q : ℕ)
    → All IsByte rest
    → k ≤ 9
    → acc < 2 ^ (6 + 7 * k)
    → acc < 2 ^ 64
    → more_bytes rest p acc (6 + 7 * k) ≡ some (r, q)
    → (r < 2 ^ 64) × (p < q) × (q ≤ p + length rest) × (q + k ≤ p + 9)
more_bytes_bounds [] p acc k r q hs hk ha h64 d = unfold more_bytes in cc
more_bytes_bounds (b ∷ rest) p acc k r q hs hk ha h64 d = elim (Bool-cases (ltb k 9)) [
  | inl low ↦ ground (
    arith,
    more_bytes_step k b rest p acc,
    kept_bounds k (b % 128) acc,
    shift_seven (6 + 7 * k),
    more_bytes_bounds rest (p + 1) (acc + kept k (b % 128) * 2 ^ (6 + 7 * k)) (suc k) r q,
  )
  | inr high ↦ ground (arith, more_bytes_end k b rest p acc)
]

with_sign-IsI64 : (negative : Bool) (r : ℕ) → r < 2 ^ 64 → IsI64 (with_sign negative r)
unfolding with_sign
with_sign-IsI64 true r h = signed64-IsI64 ((2 ^ 64 - r) % 2 ^ 64) (omega arith)
with_sign-IsI64 false r h = signed64-IsI64 r h

-- What a decoding came to: the slice's end with the value 0, or a value of at most ten bytes.
abbrev pub Reads : ℕ → ℕ → ℤ × ℕ → Type 0
Reads p len (v, q) = ((v ≡ ℤ.pos 0) × (q ≡ len)) ⊎ (IsI64 v × (p < q) × (q ≤ len) × (q ≤ p + 10))

price_value-Reads :
    (p len : ℕ) (negative : Bool) (decoded : Option (ℕ × ℕ))
    → ((r q : ℕ) → decoded ≡ some (r, q) → (r < 2 ^ 64) × (p ≤ q) × (q + 1 ≤ len) × (q ≤ p + 9))
    → Reads p len (price_value negative decoded len)
unfolding price_value
price_value-Reads p len negative none h = inl (refl, refl)
price_value-Reads p len negative (some (r, q)) h =
    let (fits, after, inside, short) = h r q refl in
    inr (with_sign-IsI64 negative r fits, omega arith, omega arith, omega arith)

price_at-Reads :
    (bytes : Bytes) (p len : ℕ)
    → All IsByte bytes
    → p + length bytes ≡ len
    → Reads p len (price_at bytes p len)
unfolding price_at
price_at-Reads [] p len hs e = inl (refl, refl)
price_at-Reads (first ∷ rest) p len hs e = price_value-Reads p len _ _ λ r q d.
    ground (arith, top_bit first, low_six first, more_bytes_bounds rest p (first % 64) 0 r q)

-- On any bytes and at any position `get_price` either gives up, with 0 and the slice's end, or it
-- returns an `i64` and a position further on, by at most ten bytes and inside the slice.
pub get_price-Reads :
    (bytes : Bytes) (p : ℕ) → All IsByte bytes → Reads p (length bytes) (get_price bytes p)
unfolding get_price price_at
get_price-Reads bytes p hs = elim (Bool-cases (ltb p (length bytes))) [
  | inl inside ↦
      price_at-Reads (drop p bytes) p (length bytes) (All-drop IsByte p bytes hs)
        (ground (arith, length-drop p bytes))
  | inr past ↦ rw (drop_past p bytes (ground arith)) (inl (refl, refl))
]

-- As `get_price-Reads`, for the position alone.
pub get_price_moves :
    (bytes : Bytes) (p : ℕ)
    → All IsByte bytes
    → ((get_price bytes p).1 ≤ length bytes)
      × (((get_price bytes p).1 ≡ length bytes) ⊎ (p < (get_price bytes p).1))
get_price_moves bytes p h = elim (get_price-Reads bytes p h) [
  | inl (v, e) ↦ (omega arith, inl e)
  | inr (v, after, inside, short) ↦ (inside, inr after)
]

pub get_price-IsI64 : (bytes : Bytes) (p : ℕ) → All IsByte bytes → IsI64 (get_price bytes p).0
get_price-IsI64 bytes p h = elim (get_price-Reads bytes p h) [
  | inl (v, e) ↦ rw v (omega arith)
  | inr (v, _, _, _) ↦ v
]

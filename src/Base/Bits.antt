-- ===== src/Base/Bits.antt =====
-- `bit_and` with the masks that the source uses, and `bit_or` of two numbers with no bit in common.
use Prim.Native.Nat.{
  ℕ, zero, suc, ◌+◌, ◌*◌, ◌/◌, ◌%◌, ◌^◌, ◌≤◌, ◌<◌, max, bit_and, bit_or, digits, bit_or-bitwise,
}
use mathlib.Core.Path.{◌≡◌, refl, ap}
use mathlib.Core.Bool.{Bool, true, ◌&&◌}
use native.Mathlib.Omega.{arith}
use native.Mathlib.Nat.{pow-suc}
use tdxrs.Base.Tests.{◌==◌, ==_iff}

-- Whether a test holds of all numbers below a bound.
unfoldable pub passes : (ℕ → Bool) → ℕ → Bool
passes test zero = true
passes test (suc k) = test k && passes test k

pub passes_at : (test : ℕ → Bool) (k i : ℕ) → passes test k ≡ true → i < k → test i ≡ true
unfolding passes
passes_at test zero i all inside = absurd (omega arith)
passes_at test (suc k) i all inside = ground (arith, passes_at test k i)

low_seven_table : passes (λ x. bit_and x 0x7f == x % 128) 256 ≡ true
unfolding passes
low_seven_table = refl

low_six_table : passes (λ x. bit_and x 0x3f == x % 64) 256 ≡ true
unfolding passes
low_six_table = refl

top_bit_table : passes (λ x. bit_and x 0x80 == x / 128 * 128) 256 ≡ true
unfolding passes
top_bit_table = refl

sign_bit_table : passes (λ x. bit_and x 0x40 == x / 64 % 2 * 64) 256 ≡ true
unfolding passes
sign_bit_table = refl

pub low_seven : (b : ℕ) → b < 256 → bit_and b 0x7f ≡ b % 128
low_seven b h = (==_iff _ _).0 (passes_at _ 256 b low_seven_table h)

pub low_six : (b : ℕ) → b < 256 → bit_and b 0x3f ≡ b % 64
low_six b h = (==_iff _ _).0 (passes_at _ 256 b low_six_table h)

pub top_bit : (b : ℕ) → b < 256 → bit_and b 0x80 ≡ b / 128 * 128
top_bit b h = (==_iff _ _).0 (passes_at _ 256 b top_bit_table h)

pub sign_bit : (b : ℕ) → b < 256 → bit_and b 0x40 ≡ b / 64 % 2 * 64
sign_bit b h = (==_iff _ _).0 (passes_at _ 256 b sign_bit_table h)

-- The law for the lowest digit, from the definition that the native operation stands for.
abbrev or_digits : ℕ → ℕ → ℕ → ℕ
or_digits n a b = digits (λ b. b) max n a b

or_digits_fuel : (n m a b : ℕ) → a ≤ n → a ≤ m → or_digits n a b ≡ or_digits m a b
or_digits_fuel zero zero a b p q = refl
or_digits_fuel zero (suc m) zero b p q = refl
or_digits_fuel zero (suc m) (suc a) b p q = absurd (omega arith)
or_digits_fuel (suc n) zero zero b p q = refl
or_digits_fuel (suc n) zero (suc a) b p q = absurd (omega arith)
or_digits_fuel (suc n) (suc m) zero b p q = refl
or_digits_fuel (suc n) (suc m) (suc a) b p q =
    omega (arith, or_digits_fuel n m (suc a / 2) (b / 2) (omega arith) (omega arith))

zero-bit_or : (b : ℕ) → bit_or 0 b ≡ b
zero-bit_or b = bit_or-bitwise 0 b

bit_or_step : (x b : ℕ) → bit_or x b ≡ bit_or (x / 2) (b / 2) * 2 + max (x % 2) (b % 2)
bit_or_step zero b = omega (arith, zero-bit_or b, zero-bit_or (b / 2))
bit_or_step (suc a) b = omega (
  arith,
  bit_or-bitwise (suc a) b,
  bit_or-bitwise (suc a / 2) (b / 2),
  or_digits_fuel a (suc a / 2) (suc a / 2) (b / 2) (omega arith) (omega arith),
)

bit_or_even : (r y : ℕ) → bit_or r (y * 2) ≡ bit_or (r / 2) y * 2 + r % 2
bit_or_even r y =
    let half : y * 2 / 2 ≡ y = omega arith in
    let digit : y * 2 % 2 ≡ 0 = omega arith in
    omega (arith, rw (half, digit) at (bit_or_step r (y * 2)))

shift_suc : (x s : ℕ) → x * 2 ^ suc s ≡ x * 2 ^ s * 2
shift_suc x s = omega (arith, ap (λ (t : ℕ). x * t) (pow-suc 2 s))

-- Below the lowest bit of a shifted number there is room: the two are joined as by a sum.
pub bit_or_disjoint : (s r x : ℕ) → r < 2 ^ s → bit_or r (x * 2 ^ s) ≡ r + x * 2 ^ s
bit_or_disjoint zero zero x h = omega (arith, zero-bit_or (x * 1))
bit_or_disjoint zero (suc r) x h = absurd (omega arith)
bit_or_disjoint (suc s) r x h = rw (shift_suc x s) (
    omega
      (arith, bit_or_even r (x * 2 ^ s), bit_or_disjoint s (r / 2) x (omega (arith, pow-suc 2 s))))

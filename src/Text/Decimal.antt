-- ===== src/Text/Decimal.antt =====
-- Decimal printing: it is read back, and it has as many digits as it needs.
use native.Mathlib.Nat.{pow-suc}
use tdxrs.Base.{ℕ, zero, suc, ◌+◌, ◌-◌, ◌*◌, ◌/◌, ◌%◌, ◌^◌, ◌<◌, ◌≡◌, refl, [], ◌∷◌, arith, length}
use tdxrs.Text.{Text, decimal_loop, decimal, pad_zeros}

-- The number that a text of digits stands for, read from the left on top of `acc`.
unfoldable pub value_of : ℕ → Text → ℕ
value_of acc [] = acc
value_of acc (c ∷ cs) = value_of (acc * 10 + (c - 48)) cs

value_of-decimal_loop :
    (fuel n : ℕ) (rest : Text)
    → n < 10 ^ suc fuel
    → value_of 0 (decimal_loop (suc fuel) n rest) ≡ value_of n rest
unfolding decimal_loop value_of
value_of-decimal_loop zero n rest h = ground arith
value_of-decimal_loop (suc fuel) n rest h =
    ground
      (arith, pow-suc 10 (suc fuel), value_of-decimal_loop fuel (n / 10) ((48 + n % 10) ∷ rest))

-- Printing a `u64` and reading the digits gives the number back.
pub value_of-decimal : (n : ℕ) → n < 10 ^ 20 → value_of 0 (decimal n) ≡ n
unfolding decimal value_of
value_of-decimal n h = value_of-decimal_loop 19 n [] h

-- More fuel than digits changes nothing.
decimal_loop_fuel :
    (f g n : ℕ) (rest : Text)
    → n < 10 ^ suc f
    → n < 10 ^ suc g
    → decimal_loop (suc f) n rest ≡ decimal_loop (suc g) n rest
unfolding decimal_loop
decimal_loop_fuel zero zero n rest hf hg = refl
decimal_loop_fuel zero (suc g) n rest hf hg = ground arith
decimal_loop_fuel (suc f) zero n rest hf hg = ground arith
decimal_loop_fuel (suc f) (suc g) n rest hf hg = ground (
  arith,
  pow-suc 10 (suc f),
  pow-suc 10 (suc g),
  decimal_loop_fuel f g (n / 10) ((48 + n % 10) ∷ rest),
)

pub decimal_short : (n : ℕ) → n < 10000 → decimal n ≡ decimal_loop 4 n []
unfolding decimal
decimal_short n h = decimal_loop_fuel 19 3 n [] (omega arith) (omega arith)

-- A number below 100 takes two places under `{:02}`, and one below 10000 four under `{:04}`.
pub length-padded_two : (n : ℕ) → n < 100 → length (pad_zeros 2 (decimal n)) ≡ 2
unfolding decimal_loop pad_zeros
length-padded_two n h = rw (decimal_short n (omega arith)) (ground arith)

pub length-padded_four : (n : ℕ) → n < 10000 → length (pad_zeros 4 (decimal n)) ≡ 4
unfolding decimal_loop pad_zeros
length-padded_four n h = rw (decimal_short n h) (ground arith)

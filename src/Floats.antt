-- ===== src/Floats.antt =====
-- The `f64` operations that the source uses. The type and the operations are a parameter: no rounding
-- law is assumed. `symbols` is a value of it, in which a number is the expression that computes it.
use tdxrs.Base.{ℕ, Bool, false, true, List, replicate}
use tdxrs.Base.Int.{ℤ}

pub record Floats : Type 1 where
  pub F64 : Type 0
  -- `n as f64` of an integer.
  pub of_int : ℤ → F64
  -- The widened `f32` with these 32 bits.
  pub of_f32 : ℕ → F64
  -- The literal `m` divided by `10 ^ places`.
  pub literal : ℕ → ℕ → F64
  pub add : F64 → F64 → F64
  pub sub : F64 → F64 → F64
  pub mul : F64 → F64 → F64
  pub div : F64 → F64 → F64
  -- `2.0_f64.powi(n)`.
  pub two_to : ℤ → F64
  pub abs : F64 → F64
  pub round : F64 → F64
  pub less : F64 → F64 → Bool
  pub is_finite : F64 → Bool
  -- `{:06.3}`: three decimals, padded with zeros to six places.
  pub fixed_three : F64 → List ℕ

pub data Symbol : Type 0 where
  int : ℤ → Symbol
  single : ℕ → Symbol
  decimal : ℕ → ℕ → Symbol
  plus minus times over : Symbol → Symbol → Symbol
  power_of_two : ℤ → Symbol
  absolute rounded : Symbol → Symbol

abbrev pub symbols : Floats
symbols = record {
  F64 = Symbol;
  of_int = int;
  of_f32 = single;
  literal = decimal;
  add = plus;
  sub = minus;
  mul = times;
  div = over;
  two_to = power_of_two;
  abs = absolute;
  round = rounded;
  less = λ a b. false;
  is_finite = λ a. true;
  fixed_three = λ a. replicate 6 48;
}

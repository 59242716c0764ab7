-- ===== src/Quotes/Servertime.antt =====
-- `format_servertime` of src/protocol/parsers.rs.
use tdxrs.Base.{
  ℕ, ◌+◌, ◌-◌, ◌*◌, ◌/◌, ◌%◌, ◌&&◌, Option, none, some, [], ◌∷◌, ◌++◌, if◌then◌else◌, ltb, leb,
  length, take, drop,
}
use tdxrs.Base.Int.{ℤ}
use tdxrs.Floats.{Floats}
use tdxrs.Text.{Text, decimal, padded, pad_zeros}

-- `parse::<u32>()` and `parse::<u64>()` of a text of one to six characters, which
-- fits either.
unfoldable pub parse_digits : ℕ → Text → Option ℕ
parse_digits acc [] = some acc
parse_digits acc (c ∷ cs) =
    let rest = parse_digits (acc * 10 + (c - 48)) cs in if leb 48 c && leb c 57 then rest else none

module _ (fl : Floats) where
  open fl use {F64, of_int, literal, mul, div, fixed_three}

  abbrev pub clock : Text → ℕ → F64 → Text
  clock hh minute second = pad_zeros 2 hh ++ (58 ∷ (padded 2 minute ++ (58 ∷ fixed_three second)))

  -- `tail as f64 * 60.0 / 10000.0` and `(whole * 60 % 1_000_000) as f64 * 60.0 / 1_000_000.0`.
  abbrev pub tail_second : ℕ → F64
  tail_second tail = div (mul (of_int (ℤ.pos tail)) (literal 60 0)) (literal 10000 0)

  abbrev pub fraction_second : ℕ → F64
  fraction_second whole =
      div (mul (of_int (ℤ.pos (whole * 60 % 1000000))) (literal 60 0)) (literal 1000000 0)

  -- A minute of 60 or more: the last six digits are a fraction of the hour.
  unfoldable pub format_fraction : Text → Text → Text → Text
  format_fraction s hh rest = elim (parse_digits 0 rest) [
    | some whole ↦ clock hh (whole * 60 / 1000000) (fraction_second whole)
    | none ↦ s
  ]

  unfoldable pub format_tail : Text → Text → Text → Text
  format_tail s hh rest = elim (parse_digits 0 (take 2 rest)) [
    | none ↦ format_fraction s hh rest
    | some minute ↦ elim (parse_digits 0 (drop 2 rest)) [
      | none ↦ format_fraction s hh rest
      | some tail ↦
          if ltb minute 60 then clock hh minute (tail_second tail) else format_fraction s hh rest
    ]
  ]

  unfoldable pub format_servertime : ℕ → Text
  format_servertime ts =
      let s = decimal ts in
      let hh = take (length s - 6) s in
      let rest = drop (length s - 6) s in
      if ltb (length s) 7 then s else if ltb 2 (length hh) then s else format_tail s hh rest

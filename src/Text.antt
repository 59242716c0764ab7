-- ===== src/Text.antt =====
-- Text as a list of code points, and the formatting and trimming of the Rust library that the
-- source uses: `{}`, `{:02}`, `{:04}`, `{:02x}`, `trim_end_matches('\0')`, `from_utf8_lossy`.
pub mod Decimal
pub mod Equality
pub mod Utf8
use tdxrs.Base.{
  ℕ, zero, suc, ◌+◌, ◌-◌, ◌*◌, ◌/◌, ◌%◌, ◌≤◌, Bool, true, false, ◌&&◌, ◌||◌, List, [], ◌∷◌, ◌++◌,
  ltb, leb, ◌==◌, if◌then◌else◌, length, replicate, reverse,
}

abbrev pub Text : Type 0
Text = List ℕ

-- `format!("{}", n)` for an unsigned number of at most `fuel` digits, in front of `acc`.
unfoldable pub decimal_loop : ℕ → ℕ → Text → Text
decimal_loop zero n acc = acc
decimal_loop (suc fuel) n acc =
    let more = decimal_loop fuel (n / 10) ((48 + n % 10) ∷ acc) in
    if ltb n 10 then (48 + n) ∷ acc else more

-- A `u64` has at most 20 digits.
unfoldable pub decimal : ℕ → Text
decimal n = decimal_loop 20 n []

-- `{:0>width}`: zeros in front up to a width; a longer text is not cut.
unfoldable pub pad_zeros : ℕ → Text → Text
pad_zeros width text = replicate (width - length text) 48 ++ text

abbrev pub padded : ℕ → ℕ → Text
padded width n = pad_zeros width (decimal n)

abbrev pub hex_digit : ℕ → ℕ
hex_digit d = if ltb d 10 then 48 + d else 87 + d

-- `{:02x}` of a byte.
unfoldable pub hex_byte : ℕ → Text
hex_byte b = hex_digit (b / 16) ∷ hex_digit (b % 16) ∷ []

unfoldable pub hex_bytes : List ℕ → Text
unfolding hex_byte
hex_bytes [] = []
hex_bytes (b ∷ bs) = hex_byte b ++ hex_bytes bs

-- Whether nothing but NUL follows.
unfoldable pub all_nul : Text → Bool
all_nul [] = true
all_nul (c ∷ cs) = c == 0 && all_nul cs

-- `trim_end_matches('\0')`.
unfoldable pub trim_nul : Text → Text
unfolding all_nul
trim_nul [] = []
trim_nul (c ∷ cs) = if all_nul (c ∷ cs) then [] else c ∷ trim_nul cs

unfoldable pub text_eq : Text → Text → Bool
text_eq [] [] = true
text_eq [] (y ∷ ys) = false
text_eq (x ∷ xs) [] = false
text_eq (x ∷ xs) (y ∷ ys) = x == y && text_eq xs ys

-- `s.starts_with(prefix)`.
unfoldable pub starts_with : Text → Text → Bool
starts_with prefix [] = elim prefix [ [] ↦ true | _ ∷ _ ↦ false ]
starts_with [] (x ∷ xs) = true
starts_with (p ∷ ps) (x ∷ xs) = p == x && starts_with ps xs

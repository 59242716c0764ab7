-- ===== src/Text/Utf8.antt =====
-- `String::from_utf8_lossy`: every greatest prefix of a broken sequence becomes U+FFFD.
use tdxrs.Base.{
  ℕ, zero, suc, ◌+◌, ◌*◌, ◌%◌, ◌≤◌, Bool, ◌&&◌, ◌||◌, not, List, [], ◌∷◌, ltb, leb, ◌==◌,
  if◌then◌else◌, length, drop, get_or, arith,
}
use tdxrs.Text.{Text, trim_nul}

abbrev within : ℕ → ℕ → ℕ → Bool
within lo hi b = leb lo b && leb b hi

-- How many bytes the first one announces.
abbrev width : ℕ → ℕ
width b =
    if ltb b 128
    then 1
    else if within 0xC2 0xDF b
    then 2
    else if within 0xE0 0xEF b
    then 3
    else if within 0xF0 0xF4 b
    then 4
    else 0

abbrev continues : ℕ → Bool
continues b = within 0x80 0xBF b

-- Whether the second byte may follow the first.
abbrev second_fits : ℕ → ℕ → Bool
second_fits a b =
    if a == 0xE0
    then within 0xA0 0xBF b
    else if a == 0xED
    then within 0x80 0x9F b
    else if a == 0xF0
    then within 0x90 0xBF b
    else if a == 0xF4
    then within 0x80 0x8F b
    else continues b

abbrev broken : ℕ
broken = 0xFFFD

-- The first character of `a ∷ rest`, and how many bytes of `rest` it takes.
unfoldable decode_one : ℕ → List ℕ → ℕ × ℕ
decode_one a rest =
    let w = width a in
    let b = get_or rest 0 0 in
    let c = get_or rest 1 0 in
    let d = get_or rest 2 0 in
    if w == 1
    then (a, 0)
    else if w == 0 || not (second_fits a b)
    then (broken, 0)
    else if w == 2
    then (a % 32 * 64 + b % 64, 1)
    else if not (continues c)
    then (broken, 1)
    else if w == 3
    then (a % 16 * 4096 + b % 64 * 64 + c % 64, 2)
    else if not (continues d)
    then (broken, 2)
    else (a % 8 * 262144 + b % 64 * 4096 + c % 64 * 64 + d % 64, 3)

unfoldable lossy_loop : ℕ → List ℕ → Text
unfolding decode_one
lossy_loop zero bytes = []
lossy_loop (suc fuel) [] = []
lossy_loop (suc fuel) (a ∷ rest) =
    let (c, k) = decode_one a rest in c ∷ lossy_loop fuel (drop k rest)

-- Each round takes a byte at least.
unfoldable pub from_utf8_lossy : List ℕ → Text
unfolding lossy_loop
from_utf8_lossy bytes = lossy_loop (length bytes) bytes

length-lossy_loop : (fuel : ℕ) (bytes : List ℕ) → length (lossy_loop fuel bytes) ≤ fuel
unfolding lossy_loop
length-lossy_loop zero bytes = omega arith
length-lossy_loop (suc fuel) [] = omega arith
length-lossy_loop (suc fuel) (a ∷ rest) =
    omega (arith, length-lossy_loop fuel (drop (decode_one a rest).1 rest))

pub length-from_utf8_lossy : (bytes : List ℕ) → length (from_utf8_lossy bytes) ≤ length bytes
unfolding from_utf8_lossy
length-from_utf8_lossy bytes = length-lossy_loop (length bytes) bytes

pub length-trim_nul : (text : Text) → length (trim_nul text) ≤ length text
unfolding trim_nul
length-trim_nul [] = omega arith
length-trim_nul (c ∷ cs) = ground (arith, length-trim_nul cs)

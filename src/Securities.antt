-- ===== src/Securities.antt =====
-- `get_security_type` and `get_security_coefficient` of src/protocol/types.rs.
use tdxrs.Base.{ℕ, ◌+◌, [], ◌∷◌, ◌||◌, ◌==◌, if◌then◌else◌}
use tdxrs.Text.{Text, starts_with}
use tdxrs.Floats.{Floats}

-- A prefix of two or three decimal digits, as text.
abbrev pub two : ℕ → ℕ → Text
two a b = (48 + a) ∷ (48 + b) ∷ []

abbrev pub three : ℕ → ℕ → ℕ → Text
three a b c = (48 + a) ∷ two b c

abbrev sh_type : Text → ℕ
sh_type code =
    if starts_with (two 6 0) code || starts_with (two 6 8) code
    then 1
    else if starts_with (two 9 0) code
    then 2
    else if starts_with (three 5 1 9) code
    then 5
    else if starts_with (two 5 0) code || starts_with (two 5 1) code || starts_with (two 5 8) code
    then 3
    else if starts_with (two 1 1) code || starts_with (two 1 3) code
    then 4
    else if starts_with (three 0 0 0) code
    then 0
    else 1

abbrev sz_type : Text → ℕ
sz_type code =
    if starts_with (two 3 9) code
    then 0
    else if starts_with (two 0 0) code || starts_with (two 3 0) code
    then 1
    else if starts_with (two 2 0) code
    then 2
    else if starts_with (two 1 5) code || starts_with (two 1 6) code
    then 3
    else if starts_with (two 1 0) code || starts_with (two 1 2) code || starts_with (two 1 3) code
    then 4
    else 1

-- 0 index, 1 A share, 2 B share, 3 exchange-traded fund, 4 bond, 5 open-end fund.
unfoldable pub get_security_type : ℕ → Text → ℕ
get_security_type market code =
    if market == 1 then sh_type code else if market == 0 then sz_type code else 1

-- The number of decimal places by which the coefficient scales.
unfoldable pub coefficient_places : ℕ → ℕ
coefficient_places sec_type =
    if sec_type == 0 || sec_type == 1
    then 2
    else if sec_type == 2 || sec_type == 3
    then 3
    else if sec_type == 4
    then 4
    else if sec_type == 5
    then 5
    else 2

unfoldable pub get_security_coefficient : (fl : Floats) → ℕ → Text → Floats.F64 fl
unfolding coefficient_places
get_security_coefficient fl market code =
    Floats.literal fl 1 (coefficient_places (get_security_type market code))

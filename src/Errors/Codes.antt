-- ===== src/Errors/Codes.antt =====
-- An error with a code, and the code of src/error_codes.rs that the parsers return.
use tdxrs.Base.{ℕ}
use tdxrs.Errors.{TdxError, coded}

abbrev pub with_code : ℕ → TdxError
with_code n = coded (record { number = n })

abbrev pub response_length_mismatch : TdxError
response_length_mismatch = with_code 2103

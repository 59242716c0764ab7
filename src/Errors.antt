-- ===== src/Errors.antt =====
-- src/error.rs and src/error_codes.rs: error codes, the error type, and what a call can come to.
-- Message texts are left out; the code or the constructor is what callers test.
pub mod Codes
use tdxrs.Base.{
  ℕ, ◌+◌, ◌≤◌, ◌≡◌, Bool, true, false, ◌&&◌, ◌||◌, Option, none, some, List, [], ◌∷◌, leb, ltb,
  if◌then◌else◌, length, get_elem?, take, drop, ◌-◌,
}

-- `pub struct ErrorCode(pub u32)`.
pub record ErrorCode : Type 0 where
  pub number : ℕ

pub data TdxError : Type 0 where
  io parse invalid_data file_not_found connection connection_timeout : TdxError
  setup_failed response_parse disconnected : TdxError
  retry_exhausted : ℕ → TdxError
  coded : ErrorCode → TdxError

-- A call returns `Ok` or `Err`, or it panics.
pub data Outcome {ℓ} (A : Type ℓ) : Type ℓ where
  ok : A → Outcome A
  err : TdxError → Outcome A
  panic : Outcome A

infixl 5 ◌>>=◌ ◌>>◌
abbrev pub ◌>>=◌ {ℓ κ} : {A : Type ℓ} {B : Type κ} → Outcome A → (A → Outcome B) → Outcome B
ok a >>= f = f a
err e >>= f = err e
panic >>= f = panic

abbrev pub ◌>>◌ {ℓ} : {B : Type ℓ} → Outcome (Unit {0}) → Outcome B → Outcome B
m >> k = m >>= λ _. k

-- `if test { return Err(e) }`.
abbrev pub fail_if : Bool → TdxError → Outcome (Unit {0})
fail_if true e = err e
fail_if false e = ok tt

abbrev pub some_or_panic {ℓ} : {A : Type ℓ} → Option A → Outcome A
some_or_panic none = panic
some_or_panic (some a) = ok a

-- `data[pos]` and `&data[from..to]`.
abbrev pub index {ℓ} : {A : Type ℓ} → List A → ℕ → Outcome A
index bytes pos = some_or_panic (get_elem? bytes pos)

unfoldable pub slice {ℓ} : {A : Type ℓ} → List A → ℕ → ℕ → Outcome (List A)
slice bytes from to =
    if leb from to && leb to (length bytes) then ok (take (to - from) (drop from bytes)) else panic

-- The call did not panic, and what it returned satisfies `P`.
abbrev pub Sound {ℓ} : {A : Type ℓ} → (A → Type 0) → Outcome A → Type 0
Sound P (ok a) = P a
Sound P (err e) = Unit {0}
Sound P panic = ⊥

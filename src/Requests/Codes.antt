-- ===== src/Requests/Codes.antt =====
-- The strict encoding of a code, the lenient one and the market of a code.
use tdxrs.Base.{
  ℕ, zero, suc, ◌-◌, ◌≤◌, ◌≡◌, refl, ap, true, [], ◌∷◌, ◌++◌, ◌==◌, length, take, replicate, min,
  arith, All, length-append, length-take, length-replicate, ◌⊎◌, inl, inr, Bool-cases, ◌↔◌,
}
use tdxrs.Errors.{ok, err}
use tdxrs.Bytes.{Bytes}
use tdxrs.Requests.{
  code_bytes, is_ascii_alphanumeric, all_alphanumeric, code_bytes_strict, auto_market,
  invalid_stock_code, unknown_code_format,
}

pub length-code_bytes : (code : Bytes) → length (code_bytes code) ≡ 6
unfolding code_bytes
length-code_bytes code =
    let len = min (length code) 6 in
    rw
      (
        length-append (take len code) (replicate (6 - len) 0),
        length-replicate {A = ℕ} (6 - len) 0,
        length-take len code,
      )
      (omega arith)

take_all : (n : ℕ) (xs : Bytes) → length xs ≡ n → take n xs ≡ xs
take_all zero [] h = refl
take_all zero (x ∷ xs) h = absurd (omega arith)
take_all (suc n) [] h = absurd (omega arith)
take_all (suc n) (x ∷ xs) h = ap (λ (l : Bytes). x ∷ l) (take_all n xs (omega arith))

-- A byte of a well-formed code: a digit or a letter.
abbrev pub IsAlphanumeric : ℕ → Type 0
IsAlphanumeric b = ((48 ≤ b) × (b ≤ 57)) ⊎ (((65 ≤ b) × (b ≤ 90)) ⊎ ((97 ≤ b) × (b ≤ 122)))

one_byte : (b : ℕ) → (is_ascii_alphanumeric b ≡ true) ↔ IsAlphanumeric b
one_byte b = (λ e. ground arith, λ h. ground arith)

all_alphanumeric_lem : (bs : Bytes) → (all_alphanumeric bs ≡ true) ↔ All IsAlphanumeric bs
unfolding all_alphanumeric
all_alphanumeric_lem [] = (λ e. tt, λ h. refl)
all_alphanumeric_lem (b ∷ bs) =
    let (there, back) = all_alphanumeric_lem bs in
    let (one, one_back) = one_byte b in
    (
      λ e. elim (Bool-cases (is_ascii_alphanumeric b)) [
        | inl e1 ↦ elim (Bool-cases (all_alphanumeric bs)) [
          | inl e2 ↦ (one e1, there e2)
          | inr e2 ↦ absurd (ground arith)
        ]
        | inr e1 ↦ absurd (ground arith)
      ],
      λ (h, hs). rw (one_back h, back hs) refl,
    )

unpadded : (code : Bytes) → length code ≡ 6 → code_bytes code ≡ code
unfolding code_bytes
unpadded code h = rw (h, take_all 6 code h) (append_nil code)
  where
    append_nil : (xs : Bytes) → xs ++ [] ≡ xs
    append_nil [] = refl
    append_nil (x ∷ xs) = ap (λ (l : Bytes). x ∷ l) (append_nil xs)

-- The strict encoding accepts exactly the codes of six digits or letters, refuses the others as
-- invalid, and agrees with the lenient one on those it accepts.
code_bytes_strict_lem :
    (code : Bytes)
    → ((length code ≡ 6) × All IsAlphanumeric code → code_bytes_strict code ≡ ok (code_bytes code))
      × (¬ ((length code ≡ 6) × All IsAlphanumeric code)
          → code_bytes_strict code ≡ err invalid_stock_code)
unfolding code_bytes_strict
code_bytes_strict_lem code =
    let (there, back) = all_alphanumeric_lem code in
    (
      λ (six, all). rw (unpadded code six, back all, six) refl,
      λ no. elim (Bool-cases (length code == 6)) [
        | inl e ↦ elim (Bool-cases (all_alphanumeric code)) [
          | inl e2 ↦ absurd (no (ground arith, there e2))
          | inr e2 ↦ rw (e, e2) refl
        ]
        | inr e ↦ rw e refl
      ],
    )

-- A code of six characters is of Shanghai exactly if it starts with 6, and of Shenzhen exactly if it
-- starts with 0 or 3; any other first character is refused, and so is any other length.
pub auto_market_lem :
    (c : ℕ) (cs : Bytes)
    → (¬ (length cs ≡ 5) → auto_market (c ∷ cs) ≡ err invalid_stock_code)
      × (length cs ≡ 5
          → ((auto_market (c ∷ cs) ≡ ok 1) ↔ (c ≡ 54))
            × ((auto_market (c ∷ cs) ≡ ok 0) ↔ ((c ≡ 48) ⊎ (c ≡ 51)))
            × ((auto_market (c ∷ cs) ≡ err unknown_code_format)
                ↔ ((¬ (c ≡ 54)) × (¬ (c ≡ 48)) × (¬ (c ≡ 51)))))
unfolding auto_market
auto_market_lem c cs = (
  λ no. ground arith,
  λ five. (
    (λ e. ground arith, λ h. ground arith),
    (λ e. ground arith, λ h. ground arith),
    (λ e. ground arith, λ h. ground arith),
  ),
)

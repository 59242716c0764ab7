-- ===== src/Wire.antt =====
-- What stands at a position of a byte slice: the shared language of the round trips. `At body p xs`
-- says that `xs` is the rest of `body` from `p` on; each reader turns it into its value and the same
-- statement for the position behind.
use tdxrs.Base.{
  ℕ, zero, suc, ◌+◌, ◌^◌, ◌<◌, ◌≡◌, refl, sym, ap, ◌∙◌, List, [], ◌∷◌, ◌++◌, arith, length,
  length-append, drop, drop-append, get_or,
}
use tdxrs.Base.Int.{ℤ}
use tdxrs.Bytes.{Bytes, byte, read_u16, read_u32}
use tdxrs.Bytes.Layout.{le16, le32}
use tdxrs.Price.{get_price}
use tdxrs.Price.RoundTrip.{encode_price, IsEncodable, price_at-encode_price}

abbrev pub At : Bytes → ℕ → Bytes → Type 0
At body p rest = (drop p body ≡ rest) × (p + length rest ≡ length body)

pub At-start : (front rest : Bytes) → At (front ++ rest) (length front) rest
At-start front rest = (drop-append front rest _ refl, ground (arith, length-append front rest))

pub At-zero : (body : Bytes) → At body 0 body
At-zero body = (refl, omega arith)

pub At-move : (body : Bytes) (p q : ℕ) (rest : Bytes) → p ≡ q → At body p rest → At body q rest
At-move body p q rest e (d, l) = (rw (← e) d, omega arith)

drop-drop {ℓ} : {A : Type ℓ} (m n k : ℕ) (xs : List A) → k ≡ m + n → drop n (drop m xs) ≡ drop k xs
drop-drop zero n k xs e = ap (λ (j : ℕ). drop j xs) (omega arith)
drop-drop (suc m) n zero xs e = absurd (omega arith)
drop-drop (suc m) zero (suc k) [] e = refl
drop-drop (suc m) (suc n) (suc k) [] e = refl
drop-drop (suc m) n (suc k) (x ∷ xs) e = drop-drop m n k xs (omega arith)

-- Behind a field the rest of the slice is still there.
pub At-skip :
    (body : Bytes) (p : ℕ) (field rest : Bytes) (n : ℕ)
    → n ≡ length field
    → At body p (field ++ rest)
    → At body (p + n) rest
At-skip body p field rest n e (d, l) = (
  sym (drop-drop p n (p + n) body refl) ∙ rw d (drop-append field rest n e),
  omega (arith, length-append field rest),
)

pub get_or-drop : (p i j : ℕ) (xs : Bytes) → j ≡ p + i → get_or (drop p xs) i 0 ≡ get_or xs j 0
get_or-drop zero i j xs e = ap (λ (k : ℕ). get_or xs k 0) (omega arith)
get_or-drop (suc p) i j [] e = refl
get_or-drop (suc p) i zero (x ∷ xs) e = absurd (omega arith)
get_or-drop (suc p) i (suc j) (x ∷ xs) e = get_or-drop p i j xs (omega arith)

pub At-byte :
    (body : Bytes) (p i : ℕ) (rest : Bytes) → At body p rest → byte body (p + i) ≡ byte rest i
At-byte body p i rest (d, l) =
    sym (get_or-drop p i (p + i) body refl) ∙ ap (λ (r : Bytes). byte r i) d

-- Each reader at its field: the value, and the rest of the slice behind the field.
pub At-u16 :
    (body : Bytes) (p n : ℕ) (rest : Bytes)
    → n < 65536
    → At body p (le16 n ++ rest)
    → (read_u16 body p ≡ n) × At body (p + 2) rest
unfolding read_u16
At-u16 body p n rest h at = (
  ground (arith, At-byte body p 0 (le16 n ++ rest) at, At-byte body p 1 (le16 n ++ rest) at),
  At-skip body p (le16 n) rest 2 (omega arith) at,
)

pub At-u32 :
    (body : Bytes) (p n : ℕ) (rest : Bytes)
    → n < 2 ^ 32
    → At body p (le32 n ++ rest)
    → (read_u32 body p ≡ n) × At body (p + 4) rest
unfolding read_u32
At-u32 body p n rest h at = (
  ground (
    arith,
    At-byte body p 0 (le32 n ++ rest) at,
    At-byte body p 1 (le32 n ++ rest) at,
    At-byte body p 2 (le32 n ++ rest) at,
    At-byte body p 3 (le32 n ++ rest) at,
  ),
  At-skip body p (le32 n) rest 4 (omega arith) at,
)

pub At-price :
    (body : Bytes) (p : ℕ) (v : ℤ) (rest : Bytes)
    → IsEncodable v
    → At body p (encode_price v ++ rest)
    → (get_price body p ≡ (v, p + length (encode_price v)))
      × At body (p + length (encode_price v)) rest
unfolding get_price
At-price body p v rest h at = (
  rw at.0 (price_at-encode_price v rest p (length body) h),
  At-skip body p (encode_price v) rest _ refl at,
)

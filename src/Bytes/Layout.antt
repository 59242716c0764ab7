-- ===== src/Bytes/Layout.antt =====
-- What the readers give at a field that stands behind a known prefix, and their ranges.
use tdxrs.Base.{
  ℕ, zero, suc, ◌+◌, ◌/◌, ◌%◌, ◌≤◌, ◌<◌, ◌≡◌, refl, List, [], ◌∷◌, ◌++◌, arith, length, get_or, All,
  ap, ◌^◌,
}
use tdxrs.Errors.{ok, index}
use tdxrs.Bytes.{Bytes, IsByte, byte, read_u16, read_u32, f32_bits}

-- `to_le_bytes`.
abbrev pub le16 : ℕ → Bytes
le16 n = (n % 256) ∷ (n / 256 % 256) ∷ []

abbrev pub le32 : ℕ → Bytes
le32 n = (n % 256) ∷ (n / 256 % 256) ∷ (n / 65536 % 256) ∷ (n / 16777216 % 256) ∷ []

get_or-append {ℓ} :
    {A : Type ℓ} (xs ys : List A) (n i : ℕ) (d : A)
    → n ≡ length xs + i
    → get_or (xs ++ ys) n d ≡ get_or ys i d
get_or-append [] ys n i d e = rw e (ap (λ k. get_or ys k d) (omega arith))
get_or-append (x ∷ xs) ys zero i d e = absurd (omega arith)
get_or-append (x ∷ xs) ys (suc n) i d e = get_or-append xs ys n i d (omega arith)

pub byte-IsByte : (bytes : Bytes) (p : ℕ) → All IsByte bytes → byte bytes p < 256
byte-IsByte [] p h = omega arith
byte-IsByte (x ∷ xs) zero h = h.0
byte-IsByte (x ∷ xs) (suc p) h = byte-IsByte xs p h.1

pub read_u16-lt : (bytes : Bytes) (p : ℕ) → All IsByte bytes → read_u16 bytes p < 65536
unfolding read_u16
read_u16-lt bytes p h = ground (arith, byte-IsByte bytes p h, byte-IsByte bytes (p + 1) h)

pub read_u32-lt : (bytes : Bytes) (p : ℕ) → All IsByte bytes → read_u32 bytes p < 2 ^ 32
unfolding read_u32
read_u32-lt bytes p h = ground (
  arith,
  byte-IsByte bytes p h,
  byte-IsByte bytes (p + 1) h,
  byte-IsByte bytes (p + 2) h,
  byte-IsByte bytes (p + 3) h,
)

pub index_total {ℓ} :
    {A : Type ℓ} (xs : List A) (i : ℕ) (d : A) → i < length xs → index xs i ≡ ok (get_or xs i d)
index_total [] i d h = absurd (omega arith)
index_total (x ∷ xs) zero d h = refl
index_total (x ∷ xs) (suc i) d h = index_total xs i d (omega arith)

-- Inside the slice the unchecked reader is the checked one.
pub f32_bits-read_u32 :
    (bytes : Bytes) (p : ℕ) → p + 4 ≤ length bytes → f32_bits bytes p ≡ ok (read_u32 bytes p)
unfolding f32_bits read_u32
f32_bits-read_u32 bytes p h = ground (
  arith,
  index_total bytes p 0,
  index_total bytes (p + 1) 0,
  index_total bytes (p + 2) 0,
  index_total bytes (p + 3) 0,
)

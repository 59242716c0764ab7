-- ===== src/Io.antt =====
-- What the methods of src/net have in common: a call changes the state it works on, whether it then
-- returns, fails or panics.
use tdxrs.Errors.{Outcome, ok, err, panic, TdxError}

abbrev pub Io {ℓ κ} : Type ℓ → Type κ → Type (ℓ ⊔ κ)
Io S A = S → S × Outcome A

module _ {ℓ κ μ} {S : Type ℓ} {A : Type κ} {B : Type μ} where
  -- `?` after a call that has come to `r` and left the state `s`.
  abbrev pub after : S → Outcome A → (A → Io S B) → S × Outcome B
  after s (ok a) f = f a s
  after s (err e) f = (s, err e)
  after s panic f = (s, panic)

infixl 5 ◌>>=◌ ◌>>◌
abbrev pub ◌>>=◌ {ℓ κ μ} : {S : Type ℓ} {A : Type κ} {B : Type μ} → Io S A → (A → Io S B) → Io S B
◌>>=◌ m f s = let (s', r) = m s in after s' r f

abbrev pub ◌>>◌ {ℓ κ} : {S : Type ℓ} {B : Type κ} → Io S (Unit {0}) → Io S B → Io S B
◌>>◌ m k = m >>= λ _. k

module _ {ℓ κ} {S : Type ℓ} {A : Type κ} where
  abbrev pub return : A → Io S A
  return a s = (s, ok a)

  abbrev pub throw : TdxError → Io S A
  throw e s = (s, err e)

  -- A call that does not touch the state.
  abbrev pub pure : Outcome A → Io S A
  pure r s = (s, r)

  -- Rust's `match call { Ok(a) => .., Err(e) => .. }`; a panic goes through.
  abbrev pub settle {μ} :
      {B : Type μ} → (A → Io S B) → (TdxError → Io S B) → S × Outcome A → S × Outcome B
  settle f g (s, ok a) = f a s
  settle f g (s, err e) = g e s
  settle f g (s, panic) = (s, panic)

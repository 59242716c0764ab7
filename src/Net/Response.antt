-- ===== src/Net/Response.antt =====
-- What a received response is: as long as its header says, and bounded when it is inflated.
use tdxrs.Base.{
  ℕ, zero, suc, ◌+◌, ◌-◌, ◌≤◌, ◌<◌, ◌≡◌, ap, [], ◌∷◌, ◌++◌, ltb, length, take, arith, length-append,
  length-take, Bool-cases, Option-cases, List-cases, inl, inr,
}
use tdxrs.Errors.{Outcome, ok, err, panic, Sound}
use tdxrs.Bytes.{Bytes}
use tdxrs.Io.{Io, after, ◌>>=◌}
use tdxrs.Requests.{parse_header}
use tdxrs.Net.{
  Sockets, Net, recv_loop, recv, body_loop, read_response_raw, decompress_zlib_checked,
  decompress_limit,
}

pub Sound-mono {ℓ} :
    {A : Type ℓ} (P Q : A → Type 0) (r : Outcome A) → ((a : A) → P a → Q a) → Sound P r → Sound Q r
Sound-mono P Q (ok a) f h = f a h
Sound-mono P Q (err e) f h = tt
Sound-mono P Q panic f h = h

-- A chain is sound if its first call is, and the second on whatever the first returns.
pub after-Sound {ℓ κ μ} :
    {S : Type ℓ} {A : Type κ} {B : Type μ} (P : A → Type 0) (Q : B → Type 0) (s : S) (r : Outcome A)
    (f : A → Io S B)
    → Sound P r
    → ((a : A) (s' : S) → P a → Sound Q (f a s').1)
    → Sound Q (after s r f).1
after-Sound P Q s (ok a) f h step = step a s h
after-Sound P Q s (err e) f h step = tt
after-Sound P Q s panic f h step = h

-- The same of a chain as it is written.
pub bind-Sound {ℓ κ μ} :
    {S : Type ℓ} {A : Type κ} {B : Type μ} (P : A → Type 0) (Q : B → Type 0) (m : Io S A)
    (f : A → Io S B) (s : S)
    → Sound P (m s).1
    → ((a : A) (s' : S) → P a → Sound Q (f a s').1)
    → Sound Q ((m >>= f) s).1
bind-Sound P Q m f s h step = after-Sound P Q (m s).0 (m s).1 f h step

decompress_limit-le :
    (unzip_size : ℕ)
    → (decompress_limit unzip_size ≤ 8388608)
      × (0 < unzip_size → decompress_limit unzip_size ≤ unzip_size + 4096)
unfolding decompress_limit
decompress_limit-le unzip_size = (ground arith, λ h. ground arith)

module _ {W : Type 0} (k : Sockets W) where
  recv_loop-Sound :
      (fuel conn missing : ℕ) (buf : Bytes) (n : Net W)
      → missing ≤ fuel
      → Sound (λ b. length b ≡ length buf + missing) (recv_loop k fuel conn missing buf n).1
  unfolding recv_loop
  recv_loop-Sound zero conn missing buf n h = omega arith
  recv_loop-Sound (suc fuel) conn zero buf n h = omega arith
  recv_loop-Sound (suc fuel) conn (suc missing) buf n h =
      let w = (k.read conn (suc missing) n.world).0 in
      elim (Option-cases (k.read conn (suc missing) n.world).1) [
        | inl e0 ↦ rw (recv_loop, e0) tt
        | inr (came, e0) ↦ elim (List-cases (take (suc missing) came)) [
          | inl e ↦ rw (recv_loop, e0, e) tt
          | inr (b, bs, e) ↦
              let short : suc (length bs) ≤ suc missing =
                omega (arith, length-take (suc missing) came, ap (λ (l : Bytes). length l) e) in
              let left = suc missing - length (b ∷ bs) in
              let n' = record n { world = w } in
              rw (recv_loop, e0, e)
                (Sound-mono _ _ (recv_loop k fuel conn left (buf ++ (b ∷ bs)) n').1
                  (λ a h. omega (arith, length-append buf (b ∷ bs)))
                  (recv_loop-Sound fuel conn left (buf ++ (b ∷ bs)) n' (omega arith)))
        ]
      ]

  pub recv-Sound : (conn len : ℕ) (n : Net W) → Sound (λ b. length b ≡ len) (recv k conn len n).1
  unfolding recv
  recv-Sound conn len n =
      Sound-mono _ _ (recv_loop k len conn len [] n).1 (λ b h. omega (arith, h))
        (recv_loop-Sound len conn len [] n (omega arith))

  body_loop-Sound :
      (fuel conn zip_size : ℕ) (body : Bytes) (n : Net W)
      → length body ≤ zip_size
      → zip_size - length body ≤ fuel
      → Sound (λ b. length b ≡ zip_size) (body_loop k fuel conn zip_size body n).1
  unfolding body_loop
  body_loop-Sound zero conn zip_size body n h le = omega arith
  body_loop-Sound (suc fuel) conn zip_size body n h le =
      let missing = zip_size - length body in
      elim (Bool-cases (ltb (length body) zip_size)) [
        | inl e ↦
            rw (body_loop, e)
              (after-Sound (λ b. length b ≡ missing) (λ b. length b ≡ zip_size)
                (recv k conn missing n).0 (recv k conn missing n).1 _ (recv-Sound conn missing n)
                (λ chunk n' got.
                  body_loop-Sound fuel conn zip_size (body ++ chunk) n'
                    (omega (arith, length-append body chunk))
                    (ground (arith, length-append body chunk))))
        | inr e ↦ rw (body_loop, e) (ground arith)
      ]

  parse_header-Sound : (buf : Bytes) → Sound (λ _. Unit {0}) (parse_header buf)
  unfolding parse_header
  parse_header-Sound buf = elim (Bool-cases (ltb (length buf) 16)) [
    | inl e ↦ rw e tt
    | inr e ↦ rw e tt
  ]

  -- A response is read without a panic, and its body is as long as its header
  -- says.
  pub read_response_raw_lem :
      (conn : ℕ) (n : Net W)
      → Sound (λ (h, b). length b ≡ h.zip_size) (read_response_raw k conn n).1
  unfolding read_response_raw
  read_response_raw_lem conn n =
      after-Sound _ _ (recv k conn 16 n).0 (recv k conn 16 n).1 _ (recv-Sound conn 16 n)
        (λ buf n1 _. after-Sound _ _ n1 (parse_header buf) _ (parse_header-Sound buf) (λ h n2 _.
          after-Sound _ _ (body_loop k h.zip_size conn h.zip_size [] n2).0
            (body_loop k h.zip_size conn h.zip_size [] n2).1 _
            (body_loop-Sound h.zip_size conn h.zip_size [] n2 (omega arith) (omega arith))
            (λ b n3 e. e)))

  -- What is inflated has at most 8 MiB, and at most 4096 bytes more than its header says if that
  -- says anything.
  pub decompress_zlib_checked_lem :
      (body : Bytes) (unzip_size : ℕ)
      → Sound
          (λ out. (length out ≤ 8388608) × (0 < unzip_size → length out ≤ unzip_size + 4096))
          (decompress_zlib_checked k body unzip_size)
  unfolding decompress_zlib_checked
  decompress_zlib_checked_lem body unzip_size =
      let limit = decompress_limit unzip_size in
      elim (Option-cases (k.inflate (limit + 1) body)) [
        | inl e ↦ rw (decompress_zlib_checked, e) tt
        | inr (out, e) ↦ elim (Bool-cases (ltb limit (length out))) [
          | inl e1 ↦ rw (decompress_zlib_checked, e, e1) tt
          | inr e1 ↦
              rw (decompress_zlib_checked, e, e1)
                (
                  ground (arith, decompress_limit-le unzip_size),
                  λ h. ground (arith, decompress_limit-le unzip_size),
                )
        ]
      ]

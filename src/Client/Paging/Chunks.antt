-- ===== src/Client/Paging/Chunks.antt =====
-- The chunks of a file put together, against the file that a server keeps.
use tdxrs.Base.{
  ℕ, zero, suc, ◌+◌, ◌-◌, ◌≤◌, ◌≡◌, refl, ◌∙◌, ap, [], ◌∷◌, ◌++◌, ltb, min, take, drop, arith,
  Bool-cases, inl, inr,
}
use tdxrs.Errors.{ok}
use tdxrs.Bytes.{Bytes}
use tdxrs.Io.{Io}
use tdxrs.Client.Paging.{chunks_loop, get_all_chunks}

take_nil : (n : ℕ) → take {A = ℕ} n [] ≡ []
take_nil zero = refl
take_nil (suc n) = refl

take-append : (xs : Bytes) (n m : ℕ) → take n xs ++ take m (drop n xs) ≡ take (n + m) xs
take-append xs zero m = ap (λ (i : ℕ). take i xs) (omega arith)
take-append [] (suc n) m = rw (take_nil m, take_nil (suc n + m)) refl
take-append (x ∷ xs) (suc n) m =
    ap (λ (l : Bytes). x ∷ l) (take-append xs n m)
    ∙ ap (λ (i : ℕ). take i (x ∷ xs)) {x = suc (n + m)} (omega arith)

module _ {S : Type 0} (get : ℕ → ℕ → Io S Bytes) (file : Bytes)
    (serves : (start size : ℕ) (s : S)
      → (get start size s).1 ≡ ok (take size (drop start file))) where
  chunks_loop_lem :
      (fuel size offset : ℕ) (s : S)
      → size - offset ≤ fuel
      → offset ≤ size
      → (chunks_loop fuel get size offset (take offset file) s).1 ≡ ok (take size file)
  unfolding chunks_loop
  chunks_loop_lem zero size offset s h o = ap (λ (i : ℕ). ok (take i file)) {y = size} (omega arith)
  chunks_loop_lem (suc fuel) size offset s h o =
      let read_size = min 30000 (size - offset) in
      let s' = (get offset read_size s).0 in
      elim (Bool-cases (ltb offset size)) [
        | inl e ↦
            let rest : (chunks_loop fuel get size (offset + read_size)
                  (take offset file ++ take read_size (drop offset file)) s').1
                ≡ ok (take size file) =
              rw (take-append file offset read_size)
                (chunks_loop_lem fuel size (offset + read_size) s' (ground arith) (ground arith)) in
            rw (chunks_loop, e, serves offset read_size s) rest
        | inr e ↦ rw (chunks_loop, e) (ap (λ (i : ℕ). ok (take i file)) {y = size} (ground arith))
      ]

  -- If every chunk is what the server keeps there, the chunks together are the first `size` bytes of the
  -- file.
  pub get_all_chunks_lem : (size : ℕ) (s : S) → (get_all_chunks get size s).1 ≡ ok (take size file)
  unfolding get_all_chunks
  get_all_chunks_lem size s = chunks_loop_lem size size 0 s (omega arith) (omega arith)

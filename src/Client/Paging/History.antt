-- ===== src/Client/Paging/History.antt =====
-- The pages of bars put together, against the history that a server keeps.
use tdxrs.Base.{
  ℕ, zero, suc, ◌+◌, ◌-◌, ◌%◌, ◌^◌, ◌≤◌, ◌<◌, ◌≡◌, refl, ◌∙◌, ap, List, [], ◌∷◌, ◌++◌, ltb, length,
  min, take, drop, length-take, length-drop, drop_past, arith, Bool-cases, inl, inr,
}
use tdxrs.Errors.{Outcome, ok}
use tdxrs.Io.{Io}
use tdxrs.Context.{max_kline_count}
use tdxrs.Client.Paging.{add_page, pages_loop, get_bars_all}

module _ {A : Type 0} where
  -- The `count` bars before the last `start` bars, or as many of them as there are.
  abbrev pub page : List A → ℕ → ℕ → List A
  page history start count =
      drop (length history - start - count) (take (length history - start) history)

  -- A page and what comes behind it.
  pub page-append : (xs : List A) (a c : ℕ) → a ≤ c → drop a (take c xs) ++ drop c xs ≡ drop a xs
  page-append xs zero zero h = refl
  page-append xs (suc a) zero h = absurd (omega arith)
  page-append [] zero (suc c) h = refl
  page-append (x ∷ xs) zero (suc c) h =
      ap (λ (l : List A). x ∷ l) (page-append xs zero c (omega arith))
  page-append [] (suc a) (suc c) h = refl
  page-append (x ∷ xs) (suc a) (suc c) h = page-append xs a c (omega arith)

  pub length-page :
      (history : List A) (start count : ℕ)
      → length (page history start count) ≡ min count (length history - start)
  length-page history start count =
      let n = length history in
      omega (
        arith,
        length-drop (n - start - count) (take (n - start) history),
        length-take (n - start) history,
      )

  module _ {S : Type 0} (history : List A) (offset batch : ℕ) where
    -- A round that gets the page it asked for: it stops at the start of the history, or goes on with
    -- all the bars behind `offset + batch`.
    add_page_lem :
        (next : ℕ → List A → Io S (List A)) (s : S) (r : Outcome (List A)) (bars : List A)
        → bars ≡ page history offset batch
        → 0 < batch
        → batch ≤ max_kline_count
        → (length history ≤ offset + batch → r ≡ ok history)
        → (offset + batch ≤ length history
            → (next batch (drop (length history - (offset + batch)) history) s).1 ≡ r)
        → (add_page next batch (drop (length history - offset) history) bars s).1 ≡ r
    unfolding add_page
    add_page_lem next s r [] e pos max stop go =
        let size : 0 ≡ min batch (length history - offset) =
          ap (λ (l : List A). length l) e ∙ length-page history offset batch in
        rw (stop (omega (arith, size)))
          (ap (λ (i : ℕ). ok (drop i history)) {y = 0} (omega (arith, size)))
    add_page_lem next s r (b ∷ bs) e pos max stop go =
        let n = length history in
        let size : suc (length bs) ≡ min batch (n - offset) =
          ap (λ (l : List A). length l) e ∙ length-page history offset batch in
        let whole : suc (length bs) % 2 ^ 16 ≡ suc (length bs) = omega (arith, size) in
        let joined : (b ∷ bs) ++ drop (n - offset) history ≡ drop (n - (offset + batch)) history =
          ap (λ (l : List A). l ++ drop (n - offset) history) e
          ∙ (page-append history (n - offset - batch) (n - offset) (omega arith)
              ∙ ap (λ (i : ℕ). drop i history) (omega arith)) in
        elim (Bool-cases (ltb (suc (length bs)) batch)) [
          | inl e1 ↦
              let all : n - (offset + batch) ≡ 0 = ground (arith, size) in
              rw (add_page, whole, e1, stop (ground (arith, size)), joined, all) refl
          | inr e1 ↦
              let full : suc (length bs) ≡ batch = ground (arith, size) in
              rw (add_page, whole, e1, whole, full, joined) (go (ground (arith, size)))
        ]

module _ {S A : Type 0} (fetch : ℕ → ℕ → Io S (List A)) (history : List A)
    (serves : (start count : ℕ) (s : S)
      → (fetch start count s).1 ≡ ok (page history start count)) where
  pages_loop_lem :
      (fuel offset remaining : ℕ) (s : S)
      → remaining ≤ fuel
      → offset ≤ length history
      → (pages_loop fuel fetch offset remaining (drop (length history - offset) history) s).1
        ≡ ok (drop (length history - (offset + remaining)) history)
  unfolding pages_loop
  pages_loop_lem zero offset remaining s h o =
      ap (λ (i : ℕ). ok (drop (length history - i) history)) (omega arith)
  pages_loop_lem (suc fuel) offset zero s h o =
      ap (λ (i : ℕ). ok (drop (length history - i) history)) (omega arith)
  pages_loop_lem (suc fuel) offset (suc r) s h o =
      let n = length history in
      let batch = min (suc r) max_kline_count in
      let s' = (fetch offset batch s).0 in
      let next = λ (fetched : ℕ). pages_loop fuel fetch (offset + fetched) (suc r - fetched) in
      rw (serves offset batch s) (
        add_page_lem history offset batch next s' _ (page history offset batch) refl (omega arith)
          (omega arith) (λ all. ap (λ (i : ℕ). ok (drop i history)) {y = 0} (omega (arith, all)))
          (λ more.
            pages_loop_lem fuel (offset + batch) (suc r - batch) s' (omega arith) more
            ∙ ap (λ (i : ℕ). ok (drop i history)) (omega arith)))

  -- If every page is what the server keeps there, the loop returns the newest `count` bars, or all
  -- there are, in their order.
  pub get_bars_all_lem :
      (count : ℕ) (s : S)
      → (get_bars_all fetch count s).1 ≡ ok (drop (length history - count) history)
  unfolding get_bars_all
  get_bars_all_lem count s =
      let start : drop (length history - 0) history ≡ [] =
        drop_past (length history - 0) history (omega arith) in
      rw (← start) (
        pages_loop_lem count 0 count s (omega arith) (omega arith)
        ∙ ap (λ (i : ℕ). ok (drop (length history - i) history)) {y = count} (omega arith))

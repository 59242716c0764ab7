-- ===== src/Context/Reach.antt =====
-- How far back the context of an adjustment reaches, against the history that a server keeps.
use tdxrs.Base.{
  ℕ, zero, suc, ◌+◌, ◌-◌, ◌*◌, ◌≤◌, ◌<◌, ◌≡◌, refl, sym, ap, ◌∙◌, ◌⊎◌, inl, inr, true, false, some,
  List, [], ◌∷◌, ◌++◌, length, take, drop, leb, length-take, take-take, Bool-cases, arith,
  drop_past,
}
use tdxrs.Errors.{Outcome, ok}
use tdxrs.Bytes.{Bytes}
use tdxrs.Floats.{Floats}
use tdxrs.Io.{Io}
use tdxrs.Requests.{build_security_bars_packet}
use tdxrs.Bars.{SecurityBar, parse_security_bars}
use tdxrs.Events.{XdXrInfo}
use tdxrs.Adjust.{bar_key}
use tdxrs.Client.Paging.History.{page, page-append, length-page}
use tdxrs.Context.{add_context, context_pages, fetch_context, earliest}

module _ (fl : Floats) (history : List (SecurityBar fl)) where
  -- The bars behind the newest 800 and up to the newest `offset`.
  abbrev pub context_to : ℕ → List (SecurityBar fl)
  context_to offset = drop (length history - offset) (take (length history - 800) history)

  -- Why the loop ends: the history is over, the pages are, or the first bar is not behind the event.
  abbrev pub Ends : ℕ → ℕ → ℕ → Type 0
  Ends last_offset ee_date offset =
      (length history ≤ offset)
      ⊎ ((offset ≡ last_offset)
          ⊎ ((b : SecurityBar fl) × (bs : List (SecurityBar fl)) × (context_to offset ≡ b ∷ bs)
              × (leb (bar_key fl b) ee_date ≡ true)))

  abbrev pub Reaches : ℕ → ℕ → Outcome (List (SecurityBar fl)) → Type 0
  Reaches last_offset ee_date r =
      (offset : ℕ) × (r ≡ ok (context_to offset)) × Ends last_offset ee_date offset

  page_before :
      (offset : ℕ)
      → 800 ≤ offset
      → page history offset 800 ++ context_to offset ≡ context_to (offset + 800)
  page_before offset h =
      let n = length history in
      let recent = take (n - 800) history in
      let cut : take (n - offset) recent ≡ take (n - offset) history =
        take-take (n - offset) (n - 800) history (omega arith) in
      rw (← cut) (
        page-append recent (n - offset - 800) (n - offset) (omega arith)
        ∙ ap (λ (i : ℕ). drop i recent) (omega arith))

module _ {S : Type 0} (fl : Floats) (history : List (SecurityBar fl)) where
  add_context-Reaches :
      (next : List (SecurityBar fl) → Io S (List (SecurityBar fl))) (last_offset ee_date offset : ℕ)
      (bars : List (SecurityBar fl)) (s : S)
      → bars ≡ page history offset 800
      → 800 ≤ offset
      → Reaches fl history last_offset ee_date (next (context_to fl history (offset + 800)) s).1
      → Reaches fl history last_offset ee_date
          (add_context fl next ee_date (context_to fl history offset) (ok bars) s).1
  unfolding add_context
  add_context-Reaches next last_offset ee_date offset [] s e h go =
      let none_left =
        ap (λ (l : List (SecurityBar fl)). length l) e ∙ length-page history offset 800 in
      (offset, refl, inl (omega (arith, none_left)))
  add_context-Reaches next last_offset ee_date offset (b ∷ bs) s e h go =
      let joined : (b ∷ bs) ++ context_to fl history offset ≡ context_to fl history (offset + 800) =
        ap (λ (l : List (SecurityBar fl)). l ++ context_to fl history offset) e
        ∙ page_before fl history offset h in
      elim (Bool-cases (leb (bar_key fl b) ee_date)) [
        | inl e1 ↦
            rw (add_context, e1)
              (
                offset + 800,
                ap (λ (l : List (SecurityBar fl)). ok l) joined,
                inr (inr (b, bs ++ context_to fl history offset, sym joined, e1)),
              )
        | inr e1 ↦ rw (add_context, e1, joined) go
      ]

  module _ (max_year : ℕ) (send_fn : Bytes → Io S Bytes) (category market : ℕ) (code : Bytes)
      (serves : (offset : ℕ) (s : S)
        → 800 ≤ offset
        → offset < 65536
        → (body : Bytes) × ((send_fn
              (build_security_bars_packet category market code offset 800 0)
              s).1
            ≡ ok body)
          × (parse_security_bars fl max_year body category ≡ ok (page history offset 800))) where
    context_pages-Reaches :
        (n offset ee_date : ℕ) (s : S)
        → 800 ≤ offset
        → offset + 800 * n ≤ 65536
        → Reaches fl history
            (offset + 800 * n)
            ee_date
            (context_pages fl max_year send_fn n category market code ee_date offset
              (context_to fl history offset)
              s).1
    unfolding context_pages
    context_pages-Reaches zero offset ee_date s h small = (offset, refl, inr (inl (omega arith)))
    context_pages-Reaches (suc n) offset ee_date s h small =
        let (body, sent, parsed) = serves offset s h (omega arith) in
        let s' = (send_fn (build_security_bars_packet category market code offset 800 0) s).0 in
        let next =
          context_pages fl max_year send_fn n category market code ee_date (offset + 800) in
        let last : offset + 800 + 800 * n ≡ offset + 800 * suc n = omega arith in
        let ih : Reaches fl history (offset + 800 + 800 * n) ee_date
            (next (context_to fl history (offset + 800)) s').1 =
          context_pages-Reaches n (offset + 800) ee_date s' (omega arith) (omega arith) in
        let ih' = rw last at ih in
        rw (sent, parsed)
          (add_context-Reaches next (offset + 800 * suc n) ee_date offset (page history offset 800)
            s' refl h ih')

    -- If every page is what the server keeps there, the context is the bars in front of the newest 800,
    -- without a gap, up to the page that reaches back to the earliest event, to the start of the
    -- history, or to the limit of pages.
    pub fetch_context_lem :
        (max_pages ee_date : ℕ) (b : SecurityBar fl) (bs : List (SecurityBar fl))
        (xdxr : List (XdXrInfo fl)) (s : S)
        → earliest xdxr ≡ some ee_date
        → leb (bar_key fl b) ee_date ≡ false
        → 800 + 800 * max_pages ≤ 65536
        → Reaches fl history
            (800 + 800 * max_pages)
            ee_date
            (fetch_context fl max_year send_fn max_pages category market code (b ∷ bs) xdxr s).1
    unfolding fetch_context
    fetch_context_lem max_pages ee_date b bs xdxr s first late small =
        let start : context_to fl history 800 ≡ [] =
          drop_past (length history - 800) (take (length history - 800) history)
            (omega (arith, length-take (length history - 800) history)) in
        rw (fetch_context, first, late, ← start)
          (context_pages-Reaches max_pages 800 ee_date s (omega arith) small)

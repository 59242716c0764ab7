-- ===== src/Quotes/Any.antt =====
-- `parse_security_quotes` on any bytes: nothing panics, and what the quotes are.
use tdxrs.Base.{
  ℕ, ◌+◌, ◌-◌, ◌*◌, ◌≤◌, ◌<◌, ◌≡◌, refl, Option, none, some, List, arith, length, All, ltb,
  if◌then◌else◌, le→ltb, lt→ltb, take, drop, length-take, get_or, ◌⊎◌, inl, inr, Bool-cases,
}
use tdxrs.Base.Int.{ℤ}
use tdxrs.Errors.{ok, err, slice}
use tdxrs.Errors.Codes.{response_length_mismatch}
use tdxrs.Bytes.{Bytes, IsByte, read_u16}
use tdxrs.Bytes.Layout.{index_total, byte-IsByte, read_u16-lt}
use tdxrs.Price.{get_price}
use tdxrs.Price.Bounds.{get_price_moves}
use tdxrs.Floats.{Floats}
use tdxrs.Text.{trim_nul}
use tdxrs.Text.Utf8.{from_utf8_lossy, length-from_utf8_lossy, length-trim_nul}
use tdxrs.Loop.{collect, collect-All, collect_fits, length-collect, collect_checked-ok}
use tdxrs.Securities.{get_security_coefficient}
use tdxrs.Quotes.{
  SecurityQuote, read_four, read_level, read_quote, quote_step, parse_security_quotes,
}

module _ (fl : Floats) where
  -- Four integers that start at `p` end inside the slice, four bytes on or at its end.
  abbrev Moves : ℕ → ℕ → ℕ → Type 0
  Moves len p q = (q ≤ len) × ((q ≡ len) ⊎ (p + 4 ≤ q))

  read_four-Moves :
      (body : Bytes) (p : ℕ) → All IsByte body → Moves (length body) p (read_four fl body p).1
  unfolding read_four
  read_four-Moves body p h =
      let p1 = (get_price body p).1 in
      let p2 = (get_price body p1).1 in
      let p3 = (get_price body p2).1 in
      ground (
        arith,
        get_price_moves body p h,
        get_price_moves body p1 h,
        get_price_moves body p2 h,
        get_price_moves body p3 h,
      )

  read_level-Moves :
      (coefficient : fl.F64) (price_raw : ℤ) (body : Bytes) (p : ℕ)
      → All IsByte body
      → Moves (length body) p (read_level fl coefficient price_raw body p).1
  unfolding read_level
  read_level-Moves coefficient price_raw body p h = read_four-Moves body p h

  -- The counters are 16-bit ones, and the code has at most six characters.
  pub record IsQuote (q : SecurityQuote fl) : Type 0 where
    pub market_fits : q.market < 256
    pub code_short : length q.code ≤ 6
    pub active1_fits : q.active1 < 65536
    pub active2_fits : q.active2 < 65536

  abbrev plain_step : Bytes → ℕ → Option (SecurityQuote fl × ℕ)
  plain_step body p =
      if ltb (length body) (p + 56)
      then none
      else read_quote fl body p (get_or body p 0) (take (p + 7 - (p + 1)) (drop (p + 1) body))

  quote_step-plain_step : (body : Bytes) (p : ℕ) → quote_step fl body p ≡ ok (plain_step body p)
  unfolding quote_step slice
  quote_step-plain_step body p = elim (Bool-cases (ltb (length body) (p + 56))) [
    | inl e ↦ rw e refl
    | inr e ↦ rw (e, index_total body p 0 (ground arith)) (ground arith)
  ]

  code_short :
      (body : Bytes) (p : ℕ)
      → length (trim_nul (from_utf8_lossy (take (p + 7 - (p + 1)) (drop (p + 1) body)))) ≤ 6
  code_short body p =
      let code_bytes = take (p + 7 - (p + 1)) (drop (p + 1) body) in
      omega (
        arith,
        length-trim_nul (from_utf8_lossy code_bytes),
        length-from_utf8_lossy code_bytes,
        length-take (p + 7 - (p + 1)) (drop (p + 1) body),
      )

  read_quote_lem :
      (body : Bytes) (p market : ℕ) (code_bytes : Bytes)
      → All IsByte body
      → market < 256
      → length (trim_nul (from_utf8_lossy code_bytes)) ≤ 6
      → p + 56 ≤ length body
      → (q : SecurityQuote fl) (p' : ℕ) → read_quote fl body p market code_bytes ≡ some (q, p')
      → IsQuote q × (p + 56 ≤ p')
  unfolding read_quote
  read_quote_lem body p market code_bytes h hm hc room q p' e =
      let code = trim_nul (from_utf8_lossy code_bytes) in
      let coefficient = get_security_coefficient fl market code in
      let (price_raw, p0) = get_price body (p + 9) in
      let p1 = (read_four fl body p0).1 in
      let p2 = (read_four fl body p1).1 in
      let p3 = (read_four fl body (p2 + 4)).1 in
      let q1 = (read_level fl coefficient price_raw body p3).1 in
      let q2 = (read_level fl coefficient price_raw body q1).1 in
      let q3 = (read_level fl coefficient price_raw body q2).1 in
      let q4 = (read_level fl coefficient price_raw body q3).1 in
      let q5 = (read_level fl coefficient price_raw body q4).1 in
      let p4 = (read_four fl body (q5 + 2)).1 in
      ground (
        arith,
        get_price_moves body (p + 9) h,
        read_four-Moves body p0 h,
        read_four-Moves body p1 h,
        read_four-Moves body (p2 + 4) h,
        read_level-Moves coefficient price_raw body p3 h,
        read_level-Moves coefficient price_raw body q1 h,
        read_level-Moves coefficient price_raw body q2 h,
        read_level-Moves coefficient price_raw body q3 h,
        read_level-Moves coefficient price_raw body q4 h,
        read_four-Moves body (q5 + 2) h,
        read_u16-lt body (p + 7) h,
        read_u16-lt body (p4 + 2) h,
      )

  plain_step_lem :
      (body : Bytes)
      → All IsByte body
      → (p : ℕ) (q : SecurityQuote fl) (p' : ℕ) → plain_step body p ≡ some (q, p')
      → IsQuote q × (p + 56 ≤ length body) × (p + 56 ≤ p')
  plain_step_lem body h p q p' e = elim (Bool-cases (ltb (length body) (p + 56))) [
    | inl past ↦ absurd (ground arith)
    | inr inside ↦
        let room : p + 56 ≤ length body = ground arith in
        let read : read_quote fl body p (get_or body p 0)
              (take (p + 7 - (p + 1)) (drop (p + 1) body))
            ≡ some (q, p') =
          rw inside at e in
        let (valid, on) =
          read_quote_lem body p (get_or body p 0) (take (p + 7 - (p + 1)) (drop (p + 1) body)) h
            (byte-IsByte body p h) (code_short body p) room q p' read in
        (valid, room, on)
  ]

  -- On any bytes: a body shorter than 4 is refused. Else the parser neither fails nor panics; it
  -- returns quotes with a market byte, a code of at most six characters and 16-bit activity counters,
  -- at most as many as are declared and as fit at 56 bytes each.
  pub parse_security_quotes_valid :
      (body : Bytes)
      → All IsByte body
      → (length body < 4 → parse_security_quotes fl body ≡ err response_length_mismatch)
        × (4 ≤ length body
            → (quotes : List (SecurityQuote fl)) × (parse_security_quotes fl body ≡ ok quotes)
              × All IsQuote quotes
              × (length quotes ≤ read_u16 body 2)
              × (4 + 56 * length quotes ≤ length body))
  unfolding parse_security_quotes
  parse_security_quotes_valid body h = (
    λ short. rw (lt→ltb _ _ short) refl,
    λ full.
        let step = plain_step body in
        (
          collect (read_u16 body 2) step 4,
          rw (le→ltb _ _ full) (collect_checked-ok _ _ (quote_step-plain_step body) _ 4),
          collect-All (λ _. Unit {0}) IsQuote step
              (λ p q p' _ e. ((plain_step_lem body h p q p' e).0, tt)) _ 4 tt,
          length-collect _ step 4,
          collect_fits (λ (p : ℕ). p) 56 (length body) step
              (λ p q p' e. let (_, inside, on) = plain_step_lem body h p q p' e in (inside, on)) _ 4
              full,
        ),
  )

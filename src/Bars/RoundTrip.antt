-- ===== src/Bars/RoundTrip.antt =====
-- Whole responses: a list of bars in wire form is parsed back, and where that fails.
use tdxrs.Base.{
  ℕ, ◌+◌, ◌≤◌, ◌<◌, ◌≡◌, ap, true, List, [], ◌∷◌, ◌++◌, arith, length, length-append, length-map,
  map, le→ltb, sym,
}
use tdxrs.Base.Int.{ℤ, ◌-ℤ◌}
use tdxrs.Errors.{ok}
use tdxrs.Bytes.{Bytes}
use tdxrs.Bytes.Layout.{le16}
use tdxrs.Price.RoundTrip.{length-encode_price}
use tdxrs.Wire.{At, At-zero, At-u16}
use tdxrs.Floats.{Floats}
use tdxrs.Loop.{Run, collect-Run}
use tdxrs.Dates.{date_in_range}
use tdxrs.Bars.{bar_step, parse_security_bars}
use tdxrs.Bars.Encoded.{
  Quotation, IsMoment, IsWritable, encode_moment, encode_prices, At-moment, At-read_bar, meant,
}

-- The bars one after the other, each on the base of the close before it.
unfoldable pub encode_bars : ℕ → ℤ → List Quotation → Bytes
encode_bars category base [] = []
encode_bars category base (q ∷ qs) =
    encode_moment category q.at_time ++ encode_prices base q (encode_bars category q.closing qs)

abbrev pub AreWritable : ℕ → ℕ → ℤ → List Quotation → Type 0
AreWritable max_year category base [] = Unit
AreWritable max_year category base (q ∷ qs) =
    IsMoment category q.at_time
    × (date_in_range max_year q.at_time.date ≡ true)
    × IsWritable base q
    × AreWritable max_year category q.closing qs

pub prices_room :
    (base : ℤ) (q : Quotation) (rest : Bytes)
    → length rest + 12 ≤ length (encode_prices base q rest)
prices_room base q rest = simp length-append (
    omega (
      arith,
      length-encode_price (q.opening -ℤ base),
      length-encode_price (q.closing -ℤ q.opening),
      length-encode_price (q.highest -ℤ q.opening),
      length-encode_price (q.lowest -ℤ q.opening),
    ))

pub moment_room : (category : ℕ) (q : Quotation) → length (encode_moment category q.at_time) ≡ 4
unfolding encode_moment
moment_room category q = ground arith

module _ (fl : Floats) (max_year category : ℕ) where
  bars-Run :
      (qs : List Quotation) (body : Bytes) (p : ℕ) (base : ℤ)
      → AreWritable max_year category base qs
      → At body p (encode_bars category base qs)
      → Run
          (bar_step fl max_year category body)
          (record { p = p; base = base })
          (map (meant fl category) qs)
  unfolding encode_bars bar_step
  bars-Run [] body p base w here = tt
  bars-Run (q ∷ qs) body p base (m, d, w, ws) here =
      let (e1, here1) = At-moment category body p q.at_time _ m here in
      let (p', e2, here2) = At-read_bar fl category body (p + 4) base q _ w here1 in
      (
        record { p = p'; base = q.closing },
        rw (e1, d)
            (ground (
              arith,
              e2,
              here,
              length-append (encode_moment category q.at_time)
                  (encode_prices base q (encode_bars category q.closing qs)),
              moment_room category q,
              prices_room base q (encode_bars category q.closing qs),
            )),
        bars-Run qs body p' q.closing ws here2,
      )

  -- A response that lists fewer than 65536 writable bars is parsed into exactly those bars, with the
  -- prices that the sender meant, in order.
  pub parse_security_bars_lem :
      (qs : List Quotation)
      → length qs < 65536
      → AreWritable max_year category (ℤ.pos 0) qs
      → parse_security_bars fl max_year
          (le16 (length qs) ++ encode_bars category (ℤ.pos 0) qs)
          category
        ≡ ok (map (meant fl category) qs)
  unfolding parse_security_bars
  parse_security_bars_lem qs h w =
      let body = le16 (length qs) ++ encode_bars category (ℤ.pos 0) qs in
      let (e, here) = At-u16 body 0 (length qs) _ h (At-zero body) in
      rw (le→ltb (length body) 2 (omega arith), e)
        (ap ok (
          collect-Run _ _ _ _ (sym (length-map qs (meant fl category)))
            (bars-Run qs body 2 (ℤ.pos 0) w here)))

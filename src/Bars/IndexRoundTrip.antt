-- ===== src/Bars/IndexRoundTrip.antt =====
-- Index bars in wire form. The parser wants 24 bytes for each bar, but a bar may have only 20: the
-- date, four prices of a byte each, two codes and two counters.
use tdxrs.Base.{
  ℕ, ◌+◌, ◌≤◌, ◌<◌, ◌≡◌, refl, ap, true, List, [], ◌∷◌, ◌++◌, arith, length, length-append, map,
  le→ltb, some, none, ltb, if◌then◌else◌, Bool-cases, inl, inr,
}
use tdxrs.Base.Int.{ℤ}
use tdxrs.Errors.{ok}
use tdxrs.Bytes.{Bytes}
use tdxrs.Bytes.Layout.{le16}
use tdxrs.Wire.{At, At-zero, At-u16}
use tdxrs.Floats.{Floats}
use tdxrs.Loop.{collect}
use tdxrs.Dates.{date_in_range}
use tdxrs.Bars.{IndexBar, with_counts, index_bar_step, parse_index_bars}
use tdxrs.Bars.Encoded.{
  Quotation, IsMoment, IsWritable, encode_moment, encode_prices, At-moment, At-read_bar, meant,
}
use tdxrs.Bars.RoundTrip.{prices_room, moment_room}

pub record IndexQuotation : Type 0 where
  pub quotation : Quotation
  pub up : ℕ
  pub down : ℕ

-- One bar on the base of the close before it, in front of `rest`.
unfoldable pub encode_index_bar : ℕ → ℤ → IndexQuotation → Bytes → Bytes
encode_index_bar category base q rest =
    encode_moment category q.quotation.at_time
    ++ encode_prices base q.quotation (le16 q.up ++ (le16 q.down ++ rest))

unfoldable pub encode_index_bars : ℕ → ℤ → List IndexQuotation → Bytes
encode_index_bars category base [] = []
encode_index_bars category base (q ∷ qs) =
    encode_index_bar category base q (encode_index_bars category q.quotation.closing qs)

abbrev pub AreIndexWritable : ℕ → ℕ → ℤ → List IndexQuotation → Type 0
AreIndexWritable max_year category base [] = Unit
AreIndexWritable max_year category base (q ∷ qs) =
    IsMoment category q.quotation.at_time
    × (date_in_range max_year q.quotation.at_time.date ≡ true)
    × IsWritable base q.quotation
    × (q.up < 65536)
    × (q.down < 65536)
    × AreIndexWritable max_year category q.quotation.closing qs

-- All the bars but a last one of fewer than 24 bytes.
unfoldable pub kept_bars : ℕ → ℤ → List IndexQuotation → List IndexQuotation
kept_bars category base [] = []
kept_bars category base (q ∷ []) =
    if ltb (length (encode_index_bar category base q [])) 24 then [] else q ∷ []
kept_bars category base (q ∷ r ∷ rs) = q ∷ kept_bars category q.quotation.closing (r ∷ rs)

bar_room :
    (category : ℕ) (base : ℤ) (q : IndexQuotation) (rest : Bytes)
    → length rest + 20 ≤ length (encode_index_bar category base q rest)
unfolding encode_index_bar
bar_room category base q rest = omega (
  arith,
  length-append (encode_moment category q.quotation.at_time)
      (encode_prices base q.quotation (le16 q.up ++ (le16 q.down ++ rest))),
  moment_room category q.quotation,
  prices_room base q.quotation (le16 q.up ++ (le16 q.down ++ rest)),
)

module _ (fl : Floats) (max_year category : ℕ) where
  abbrev pub meant_index : IndexQuotation → IndexBar fl
  meant_index q = record {
    bar = meant fl category q.quotation;
    up_count = q.up;
    down_count = q.down;
  }

  index_step_short :
      (body : Bytes) (p : ℕ) (base : ℤ)
      → length body < p + 24
      → index_bar_step fl max_year category body (record { p = p; base = base }) ≡ none
  unfolding index_bar_step
  index_step_short body p base h = ground arith

  index_step_full :
      (body : Bytes) (p : ℕ) (base : ℤ) (q : IndexQuotation) (rest : Bytes)
      → IsMoment category q.quotation.at_time
      → date_in_range max_year q.quotation.at_time.date ≡ true
      → IsWritable base q.quotation
      → q.up < 65536
      → q.down < 65536
      → p + 24 ≤ length body
      → At body p (encode_index_bar category base q rest)
      → (p' : ℕ) × (index_bar_step fl max_year category body (record { p = p; base = base })
          ≡ some (meant_index q, record { p = p'; base = q.quotation.closing }))
        × At body p' rest
  unfolding index_bar_step encode_index_bar with_counts
  index_step_full body p base q rest m d w up down room here =
      let t = q.quotation.at_time in
      let (e1, here1) = At-moment category body p t _ m here in
      let (p', e2, here2) = At-read_bar fl category body (p + 4) base q.quotation _ w here1 in
      let (e3, here3) = At-u16 body p' q.up _ up here2 in
      let (e4, here4) = At-u16 body (p' + 2) q.down rest down here3 in
      (p' + 2 + 2, rw (e1, d, e2, e3, e4) (ground arith), here4)

  index_collect :
      (qs : List IndexQuotation) (body : Bytes) (p : ℕ) (base : ℤ)
      → AreIndexWritable max_year category base qs
      → At body p (encode_index_bars category base qs)
      → collect
          (length qs)
          (index_bar_step fl max_year category body)
          (record { p = p; base = base })
        ≡ map meant_index (kept_bars category base qs)
  unfolding collect encode_index_bars kept_bars
  index_collect [] body p base w here = refl
  index_collect (q ∷ []) body p base (m, d, w, up, down, ws) here =
      elim (Bool-cases (ltb (length (encode_index_bar category base q [])) 24)) [
        | inl short ↦ rw (short, index_step_short body p base (ground arith), collect) refl
        | inr full ↦
            let (p', e, _) = index_step_full body p base q [] m d w up down (ground arith) here in
            rw (full, e, collect) refl
      ]
  index_collect (q ∷ r ∷ rs) body p base (m, d, w, up, down, ws) here =
      let later = encode_index_bars category q.quotation.closing (r ∷ rs) in
      let (p', e, here') =
        index_step_full body p base q later m d w up down
          (omega (
            arith,
            bar_room category base q later,
            bar_room category q.quotation.closing r
                (encode_index_bars category r.quotation.closing rs),
          ))
          here in
      rw (e, collect)
        (ap (λ l. meant_index q ∷ l) (index_collect (r ∷ rs) body p' q.quotation.closing ws here'))

  -- A response that lists fewer than 65536 writable index bars is parsed into those bars with the
  -- prices and counts that the sender meant, except that a last bar of fewer than 24 bytes is lost.
  pub parse_index_bars_lem :
      (qs : List IndexQuotation)
      → length qs < 65536
      → AreIndexWritable max_year category (ℤ.pos 0) qs
      → parse_index_bars fl max_year
          (le16 (length qs) ++ encode_index_bars category (ℤ.pos 0) qs)
          category
        ≡ ok (map meant_index (kept_bars category (ℤ.pos 0) qs))
  unfolding parse_index_bars
  parse_index_bars_lem qs h w =
      let body = le16 (length qs) ++ encode_index_bars category (ℤ.pos 0) qs in
      let (e, here) = At-u16 body 0 (length qs) _ h (At-zero body) in
      rw (le→ltb (length body) 2 (omega arith), e)
        (ap ok (index_collect qs body 2 (ℤ.pos 0) w here))

-- ===== src/Bars/Encoded.antt =====
-- The wire form of a bar, written down independently of the parser, and the bar fields read back.
use tdxrs.Base.{
  ℕ, ◌+◌, ◌*◌, ◌^◌, ◌≤◌, ◌<◌, ◌≡◌, true, false, ◌++◌, arith, if◌then◌else◌, Bool-cases, inl, inr,
}
use tdxrs.Base.Int.{ℤ, ◌+ℤ◌, ◌-ℤ◌, wrap64, wrap64_of_fits, IsI64, int_laws}
use tdxrs.Bytes.{Bytes}
use tdxrs.Bytes.Layout.{le16, le32}
use tdxrs.Price.RoundTrip.{encode_price, IsEncodable}
use tdxrs.Wire.{At, At-move, At-u16, At-u32, At-price}
use tdxrs.Floats.{Floats}
use tdxrs.Volume.{get_volume}
use tdxrs.Dates.{DateTime, get_datetime, has_time}
use tdxrs.Dates.Packed.{pack_date, digits_of, IsCalendar, from_packed_lem, from_digits_lem}
use tdxrs.Bars.{SecurityBar, read_bar, bar_datetime, thousandths}

-- A bar as the sender has it: prices in thousandths, the two amounts as 32-bit codes.
pub record Quotation : Type 0 where
  pub at_time : DateTime
  pub opening : ℤ
  pub closing : ℤ
  pub highest : ℤ
  pub lowest : ℤ
  pub vol_code : ℕ
  pub amount_code : ℕ

unfoldable pub encode_moment : ℕ → DateTime → Bytes
encode_moment category t =
    if has_time category
    then le16 (pack_date t.date) ++ le16 (t.hour * 60 + t.minute)
    else le32 (digits_of t.date)

-- Minute bars write the years 2004 to 2035 and a minute of the hour; the others no time.
abbrev pub IsMoment : ℕ → DateTime → Type 0
IsMoment category t =
    IsCalendar t.date
    × (has_time category ≡ true
        → (2004 ≤ t.year) × (t.year ≤ 2035) × (t.hour < 24) × (t.minute < 60))
    × (has_time category ≡ false → (t.year < 10000) × (t.hour ≡ 0) × (t.minute ≡ 0))

pub At-moment :
    (category : ℕ) (body : Bytes) (p : ℕ) (t : DateTime) (rest : Bytes)
    → IsMoment category t
    → At body p (encode_moment category t ++ rest)
    → (get_datetime category body p ≡ (t, p + 4)) × At body (p + 4) rest
unfolding get_datetime encode_moment pack_date digits_of
At-moment category body p t rest (c, timed, dated) here = elim (Bool-cases (has_time category)) [
  | inl e ↦
      let (lo, hi, h, m) = timed e in
      let written : At body p (le16 (pack_date t.date) ++ (le16 (t.hour * 60 + t.minute) ++ rest)) =
        rw e at here in
      let (e1, here1) = At-u16 body p (pack_date t.date) _ (omega arith) written in
      let (e2, here2) = At-u16 body (p + 2) (t.hour * 60 + t.minute) rest (omega arith) here1 in
      (
        rw (e, e1, e2, from_packed_lem t.date c lo) (ground arith),
        At-move body (p + 2 + 2) (p + 4) rest (omega arith) here2,
      )
  | inr e ↦
      let (y, h, m) = dated e in
      let written : At body p (le32 (digits_of t.date) ++ rest) = rw e at here in
      let (e1, here1) = At-u32 body p (digits_of t.date) rest (omega arith) written in
      (rw (e, e1, from_digits_lem t.date c) (ground arith), here1)
]

-- The four prices as differences and the two codes, in front of `rest`.
abbrev pub encode_prices : ℤ → Quotation → Bytes → Bytes
encode_prices base q rest =
    encode_price (q.opening -ℤ base)
    ++ (encode_price (q.closing -ℤ q.opening)
        ++ (encode_price (q.highest -ℤ q.opening)
            ++ (encode_price (q.lowest -ℤ q.opening)
                ++ (le32 q.vol_code ++ (le32 q.amount_code ++ rest)))))

pub record IsWritable (base : ℤ) (q : Quotation) : Type 0 where
  pub opening_fits : IsI64 q.opening
  pub closing_fits : IsI64 q.closing
  pub highest_fits : IsI64 q.highest
  pub lowest_fits : IsI64 q.lowest
  pub opening_diff : IsEncodable (q.opening -ℤ base)
  pub closing_diff : IsEncodable (q.closing -ℤ q.opening)
  pub highest_diff : IsEncodable (q.highest -ℤ q.opening)
  pub lowest_diff : IsEncodable (q.lowest -ℤ q.opening)
  pub vol_fits : q.vol_code < 2 ^ 32
  pub amount_fits : q.amount_code < 2 ^ 32

pub difference : (a b : ℤ) → IsI64 b → wrap64 (a +ℤ (b -ℤ a)) ≡ b
difference a b h = let e : a +ℤ (b -ℤ a) ≡ b = omega int_laws in rw e (wrap64_of_fits b h)

module _ (fl : Floats) where
  -- The bar that the sender means.
  abbrev pub meant : ℕ → Quotation → SecurityBar fl
  meant category q = record {
    open_price = thousandths fl q.opening;
    close = thousandths fl q.closing;
    high = thousandths fl q.highest;
    low = thousandths fl q.lowest;
    vol = get_volume fl q.vol_code;
    amount = get_volume fl q.amount_code;
    at_time = q.at_time;
    datetime = bar_datetime fl category q.at_time;
  }

  pub At-read_bar :
      (category : ℕ) (body : Bytes) (p : ℕ) (base : ℤ) (q : Quotation) (rest : Bytes)
      → IsWritable base q
      → At body p (encode_prices base q rest)
      → (p' : ℕ) × (read_bar fl category body q.at_time p base
          ≡ (meant category q, record { p = p'; base = q.closing }))
        × At body p' rest
  unfolding read_bar
  At-read_bar category body p base q rest w at =
      let (e1, at1) = At-price body p _ _ w.opening_diff at in
      let (e2, at2) = At-price body _ _ _ w.closing_diff at1 in
      let (e3, at3) = At-price body _ _ _ w.highest_diff at2 in
      let (e4, at4) = At-price body _ _ _ w.lowest_diff at3 in
      let (e5, at5) = At-u32 body _ _ _ w.vol_fits at4 in
      let (e6, at6) = At-u32 body _ _ _ w.amount_fits at5 in
      (
        _,
        rw
            (
              e1,
              e2,
              e3,
              e4,
              e5,
              e6,
              difference base q.opening w.opening_fits,
              difference q.opening q.closing w.closing_fits,
              difference q.opening q.highest w.highest_fits,
              difference q.opening q.lowest w.lowest_fits,
            )
            (ground arith),
        at6,
      )

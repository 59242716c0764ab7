-- ===== src/Ticks/RoundTrip.antt =====
-- Whole responses of ticks in wire form are parsed back.
use tdxrs.Base.{
  ℕ, ◌^◌, ◌≤◌, ◌<◌, ◌≡◌, refl, ap, List, [], ◌∷◌, ◌++◌, arith, length, length-append, length-map,
  map, le→ltb, sym,
}
use tdxrs.Base.Int.{ℤ, ◌+ℤ◌, ◌-ℤ◌, IsI64, int_laws, saturating_add, saturating_add_of_fits}
use tdxrs.Errors.{ok}
use tdxrs.Bytes.{Bytes}
use tdxrs.Bytes.Layout.{le16}
use tdxrs.Price.RoundTrip.{encode_price, IsEncodable, length-encode_price}
use tdxrs.Wire.{At, At-zero, At-u16, At-price, At-skip}
use tdxrs.Floats.{Floats}
use tdxrs.Loop.{Run, collect-Run}
use tdxrs.Ticks.{
  TickData, as_u32, tick_time, read_tick, tick_step, parse_transaction_data_with_coefficient,
  read_history_tick, history_tick_step, parse_history_transaction_data_with_coefficient,
}

-- A trade as the sender has it.
pub record Trade : Type 0 where
  pub minutes : ℕ
  pub price : ℤ
  pub vol : ℤ
  pub num : ℕ
  pub buyorsell : ℕ
  pub reserved : ℕ

pub record IsWritable (base : ℤ) (t : Trade) : Type 0 where
  pub minutes_fit : t.minutes < 65536
  pub price_fits : IsI64 t.price
  pub diff_fits : IsEncodable (t.price -ℤ base)
  pub vol_fits : IsEncodable t.vol
  pub num_fits : t.num < 2 ^ 32
  pub buyorsell_fits : t.buyorsell < 2 ^ 32
  pub reserved_fits : t.reserved < 2 ^ 32

abbrev pub AreWritable : ℤ → List Trade → Type 0
AreWritable base [] = Unit
AreWritable base (t ∷ ts) = IsWritable base t × AreWritable t.price ts

-- The two numbers that close a trade, in front of `rest`.
abbrev encode_tail : Trade → Bytes → Bytes
encode_tail t rest = encode_price (ℤ.pos t.buyorsell) ++ (encode_price (ℤ.pos t.reserved) ++ rest)

unfoldable pub encode_ticks : ℤ → List Trade → Bytes
encode_ticks base [] = []
encode_ticks base (t ∷ ts) =
    le16 t.minutes
    ++ (encode_price (t.price -ℤ base)
        ++ (encode_price t.vol
            ++ (encode_price (ℤ.pos t.num) ++ encode_tail t (encode_ticks t.price ts))))

-- Without the number of trades.
unfoldable pub encode_history_ticks : ℤ → List Trade → Bytes
encode_history_ticks base [] = []
encode_history_ticks base (t ∷ ts) =
    le16 t.minutes
    ++ (encode_price (t.price -ℤ base)
        ++ (encode_price t.vol ++ encode_tail t (encode_history_ticks t.price ts)))

count_fits : (n : ℕ) → n < 2 ^ 32 → IsEncodable (ℤ.pos n)
count_fits n h = omega arith

as_u32_lem : (n : ℕ) → n < 2 ^ 32 → as_u32 (ℤ.pos n) ≡ n
unfolding as_u32
as_u32_lem n h = omega arith

saturated : (a b : ℤ) → IsI64 b → saturating_add a (b -ℤ a) ≡ b
saturated a b h =
    let e : a +ℤ (b -ℤ a) ≡ b = omega int_laws in
    let fits : IsI64 (a +ℤ (b -ℤ a)) = rw e h in rw (saturating_add_of_fits a (b -ℤ a) fits) e

history_room :
    (base : ℤ) (t : Trade) (ts : List Trade) → 6 ≤ length (encode_history_ticks base (t ∷ ts))
unfolding encode_history_ticks
history_room base t ts = simp length-append (
    omega (
      arith,
      length-encode_price (t.price -ℤ base),
      length-encode_price t.vol,
      length-encode_price (ℤ.pos t.buyorsell),
      length-encode_price (ℤ.pos t.reserved),
    ))

ticks_room : (base : ℤ) (t : Trade) (ts : List Trade) → 6 ≤ length (encode_ticks base (t ∷ ts))
unfolding encode_ticks
ticks_room base t ts = simp length-append (
    omega (
      arith,
      length-encode_price (t.price -ℤ base),
      length-encode_price t.vol,
      length-encode_price (ℤ.pos t.buyorsell),
      length-encode_price (ℤ.pos t.reserved),
    ))

module _ (fl : Floats) (coefficient : fl.F64) where
  -- The tick that the sender means.
  abbrev pub meant : Trade → TickData fl
  meant t = record {
    time = tick_time t.minutes;
    price = fl.mul (fl.of_int t.price) coefficient;
    vol = fl.of_int t.vol;
    num = t.num;
    buyorsell = t.buyorsell;
    reserved = t.reserved;
  }

  -- Its number of trades is lost on a past day.
  abbrev pub meant_history : Trade → TickData fl
  meant_history t = record (meant t) { num = 0 }

  At-read_tick :
      (body : Bytes) (p : ℕ) (base : ℤ) (t : Trade) (ts : List Trade)
      → IsWritable base t
      → At body p (encode_ticks base (t ∷ ts))
      → (p' : ℕ) × (read_tick fl coefficient body (record { p = p; last_price = base })
          ≡ (meant t, record { p = p'; last_price = t.price }))
        × At body p' (encode_ticks t.price ts)
  unfolding read_tick encode_ticks
  At-read_tick body p base t ts w here =
      let (e1, here1) = At-u16 body p t.minutes _ w.minutes_fit here in
      let (e2, here2) = At-price body _ _ _ w.diff_fits here1 in
      let (e3, here3) = At-price body _ _ _ w.vol_fits here2 in
      let (e4, here4) = At-price body _ _ _ (count_fits t.num w.num_fits) here3 in
      let (e5, here5) = At-price body _ _ _ (count_fits t.buyorsell w.buyorsell_fits) here4 in
      let (e6, here6) = At-price body _ _ _ (count_fits t.reserved w.reserved_fits) here5 in
      (
        _,
        rw
            (
              e1,
              e2,
              e3,
              e4,
              e5,
              e6,
              saturated base t.price w.price_fits,
              as_u32_lem t.num w.num_fits,
              as_u32_lem t.buyorsell w.buyorsell_fits,
              as_u32_lem t.reserved w.reserved_fits,
            )
            refl,
        here6,
      )

  At-read_history_tick :
      (body : Bytes) (p : ℕ) (base : ℤ) (t : Trade) (ts : List Trade)
      → IsWritable base t
      → At body p (encode_history_ticks base (t ∷ ts))
      → (p' : ℕ) × (read_history_tick fl coefficient body (record { p = p; last_price = base })
          ≡ (meant_history t, record { p = p'; last_price = t.price }))
        × At body p' (encode_history_ticks t.price ts)
  unfolding read_history_tick encode_history_ticks
  At-read_history_tick body p base t ts w here =
      let (e1, here1) = At-u16 body p t.minutes _ w.minutes_fit here in
      let (e2, here2) = At-price body _ _ _ w.diff_fits here1 in
      let (e3, here3) = At-price body _ _ _ w.vol_fits here2 in
      let (e5, here5) = At-price body _ _ _ (count_fits t.buyorsell w.buyorsell_fits) here3 in
      let (e6, here6) = At-price body _ _ _ (count_fits t.reserved w.reserved_fits) here5 in
      (
        _,
        rw
            (
              e1,
              e2,
              e3,
              e5,
              e6,
              saturated base t.price w.price_fits,
              as_u32_lem t.buyorsell w.buyorsell_fits,
              as_u32_lem t.reserved w.reserved_fits,
            )
            refl,
        here6,
      )

  ticks-Run :
      (ts : List Trade) (body : Bytes) (p : ℕ) (base : ℤ)
      → AreWritable base ts
      → At body p (encode_ticks base ts)
      → Run (tick_step fl coefficient body) (record { p = p; last_price = base }) (map meant ts)
  unfolding tick_step
  ticks-Run [] body p base w here = tt
  ticks-Run (t ∷ ts) body p base (w, ws) here =
      let (p', e, here') = At-read_tick body p base t ts w here in
      (
        record { p = p'; last_price = t.price },
        ground (arith, e, here, ticks_room base t ts),
        ticks-Run ts body p' t.price ws here',
      )

  history_ticks-Run :
      (ts : List Trade) (body : Bytes) (p : ℕ) (base : ℤ)
      → AreWritable base ts
      → At body p (encode_history_ticks base ts)
      → Run
          (history_tick_step fl coefficient body)
          (record { p = p; last_price = base })
          (map meant_history ts)
  unfolding history_tick_step
  history_ticks-Run [] body p base w here = tt
  history_ticks-Run (t ∷ ts) body p base (w, ws) here =
      let (p', e, here') = At-read_history_tick body p base t ts w here in
      (
        record { p = p'; last_price = t.price },
        ground (arith, e, here, history_room base t ts),
        history_ticks-Run ts body p' t.price ws here',
      )

  -- A response that lists fewer than 65536 writable trades is parsed into exactly those ticks.
  pub parse_transaction_data_lem :
      (ts : List Trade)
      → length ts < 65536
      → AreWritable (ℤ.pos 0) ts
      → parse_transaction_data_with_coefficient fl
          (le16 (length ts) ++ encode_ticks (ℤ.pos 0) ts)
          coefficient
        ≡ ok (map meant ts)
  unfolding parse_transaction_data_with_coefficient
  parse_transaction_data_lem ts h w =
      let body = le16 (length ts) ++ encode_ticks (ℤ.pos 0) ts in
      let (e, here) = At-u16 body 0 (length ts) _ h (At-zero body) in
      rw (le→ltb (length body) 2 (omega arith), e)
        (ap ok
          (collect-Run _ _ _ _ (sym (length-map ts meant)) (ticks-Run ts body 2 (ℤ.pos 0) w here)))

  -- A response of a past day, a count, four bytes of any content and fewer than 65536 writable trades,
  -- is parsed into exactly those ticks, the last one included, with no number of trades.
  pub parse_history_transaction_data_lem :
      (ts : List Trade) (header : Bytes)
      → length header ≡ 4
      → length ts < 65536
      → AreWritable (ℤ.pos 0) ts
      → parse_history_transaction_data_with_coefficient fl
          (le16 (length ts) ++ (header ++ encode_history_ticks (ℤ.pos 0) ts))
          coefficient
        ≡ ok (map meant_history ts)
  unfolding parse_history_transaction_data_with_coefficient
  parse_history_transaction_data_lem ts header four h w =
      let body = le16 (length ts) ++ (header ++ encode_history_ticks (ℤ.pos 0) ts) in
      let (e, here) = At-u16 body 0 (length ts) _ h (At-zero body) in
      let there = At-skip body 2 header _ 4 (sym four) here in
      rw (le→ltb (length body) 6 (omega (arith, there.1)), e)
        (ap ok (
          collect-Run _ _ _ _ (sym (length-map ts meant_history))
            (history_ticks-Run ts body 6 (ℤ.pos 0) w there)))

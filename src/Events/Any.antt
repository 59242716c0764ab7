-- ===== src/Events/Any.antt =====
-- `parse_xdxr_info` on any bytes, against the layout of the records.
use tdxrs.Base.{
  ℕ, zero, suc, ◌+◌, ◌-◌, ◌/◌, ◌≤◌, ◌<◌, ◌≡◌, refl, ap, ◌∙◌, ◌||◌, ◌&&◌, true, false, Option, none,
  some, List, [], ◌∷◌, if◌then◌else◌, ◌==◌, length, arith, take, drop, length-take, length-drop,
  min, inl, inr, leb, ltb, Bool-cases, le→ltb, lt→ltb, get_or,
}
use tdxrs.Errors.{ok, err, slice}
use tdxrs.Errors.Codes.{response_length_mismatch}
use tdxrs.Bytes.{Bytes, byte, read_u16, read_u32}
use tdxrs.Bytes.Layout.{f32_bits-read_u32, index_total}
use tdxrs.Wire.{get_or-drop}
use tdxrs.Floats.{Floats}
use tdxrs.Volume.{get_volume}
use tdxrs.Loop.{collect_checked}
use tdxrs.Dates.{get_datetime, has_time, from_digits}
use tdxrs.Events.{
  Amounts, XdXrInfo, no_amounts, event_name, dividend_amounts, split_amounts, warrant_amounts,
  capital_amounts, read_amounts, read_event, event_step, parse_xdxr_info,
}

-- The 16 bytes of amounts of a record, read at their places in the body.
abbrev amounts_bytes : Bytes → ℕ → Bytes
amounts_bytes body q = take 16 (drop q body)

slice_is :
    (body : Bytes) (q : ℕ)
    → q + 16 ≤ length body
    → slice body q (q + 16) ≡ ok (amounts_bytes body q)
unfolding slice
slice_is body q h =
    let inside : (leb q (q + 16) && leb (q + 16) (length body)) ≡ true = ground arith in
    let size : q + 16 - q ≡ 16 = omega arith in rw (inside, size) refl

get_or-take : (n i : ℕ) (xs : Bytes) → i < n → get_or (take n xs) i 0 ≡ get_or xs i 0
get_or-take zero i xs h = absurd (omega arith)
get_or-take (suc n) i [] h = refl
get_or-take (suc n) zero (x ∷ xs) h = refl
get_or-take (suc n) (suc i) (x ∷ xs) h = get_or-take n i xs (omega arith)

byte-amounts_bytes :
    (body : Bytes) (q i : ℕ) → i < 16 → byte (amounts_bytes body q) i ≡ byte body (q + i)
byte-amounts_bytes body q i h = get_or-take 16 i (drop q body) h ∙ get_or-drop q i (q + i) body refl

length-amounts_bytes :
    (body : Bytes) (q : ℕ) → q + 16 ≤ length body → length (amounts_bytes body q) ≡ 16
length-amounts_bytes body q h = omega (arith, length-take 16 (drop q body), length-drop q body)

read_u32-amounts_bytes :
    (body : Bytes) (q i : ℕ)
    → q + 16 ≤ length body
    → i + 4 ≤ 16
    → read_u32 (amounts_bytes body q) i ≡ read_u32 body (q + i)
unfolding read_u32
read_u32-amounts_bytes body q i h small =
    let d = amounts_bytes body q in
    let here : ltb (length d) (i + 4) ≡ false = ground (arith, length-amounts_bytes body q h) in
    let there : ltb (length body) (q + i + 4) ≡ false = ground arith in
    let at_ = λ (j : ℕ) (lt : i + j < 16).
      byte-amounts_bytes body q (i + j) lt ∙ ap (byte body) {y = q + i + j} (omega arith) in
    rw
      (
        here,
        there,
        byte-amounts_bytes body q i (omega arith),
        at_ 1 (omega arith),
        at_ 2 (omega arith),
        at_ 3 (omega arith),
      )
      refl

module _ (fl : Floats) (body : Bytes) where
  -- The fields of the four kinds of event, the amounts being at `q`. A single:
  abbrev single : ℕ → Option fl.F64
  single p = some (fl.of_f32 (read_u32 body p))

  -- A number of shares, 0 being kept as it is.
  abbrev shares : ℕ → Option fl.F64
  shares p = some (if read_u32 body p == 0 then fl.literal 0 0 else get_volume fl (read_u32 body p))

  abbrev pub amounts_at : ℕ → ℕ → Amounts fl
  amounts_at category q =
      if category == 1
      then record (no_amounts fl) {
        fenhong = single q;
        peigujia = single (q + 4);
        songzhuangu = single (q + 8);
        peigu = single (q + 12);
      }
      else if category == 11 || category == 12
      then record (no_amounts fl) { suogu = single (q + 8) }
      else if category == 13 || category == 14
      then record (no_amounts fl) { xingquanjia = single q; fenshu = single (q + 8) }
      else record (no_amounts fl) {
        panqianliutong = shares q;
        qianzongguben = shares (q + 4);
        panhouliutong = shares (q + 8);
        houzongguben = shares (q + 12);
      }

  -- The event of the record at `p`: behind eight bytes its date, its category and its amounts.
  abbrev pub event_at : ℕ → XdXrInfo fl
  event_at p = record {
    date = from_digits (read_u32 body (p + 8));
    category = byte body (p + 12);
    name = event_name (byte body (p + 12));
    amounts = amounts_at (byte body (p + 12)) (p + 13);
  }

  -- `n` events, one every 29 bytes.
  abbrev pub events_at : ℕ → ℕ → List (XdXrInfo fl)
  events_at zero p = []
  events_at (suc n) p = event_at p ∷ events_at n (p + 29)

  read_amounts_lem :
      (category q : ℕ)
      → q + 16 ≤ length body
      → read_amounts fl category (amounts_bytes body q) ≡ ok (amounts_at category q)
  unfolding read_amounts dividend_amounts split_amounts warrant_amounts capital_amounts
  read_amounts_lem category q h =
      let d = amounts_bytes body q in
      let size = length-amounts_bytes body q h in
      let first : read_u32 d 0 ≡ read_u32 body q =
        read_u32-amounts_bytes body q 0 h (omega arith) ∙ ap (read_u32 body) (omega arith) in
      rw
        (
          f32_bits-read_u32 d 0 (omega arith),
          f32_bits-read_u32 d 4 (omega arith),
          f32_bits-read_u32 d 8 (omega arith),
          f32_bits-read_u32 d 12 (omega arith),
          first,
          read_u32-amounts_bytes body q 4 h (omega arith),
          read_u32-amounts_bytes body q 8 h (omega arith),
          read_u32-amounts_bytes body q 12 h (omega arith),
        )
        (elim (Bool-cases (category == 1)) [
          | inl e ↦ rw e refl
          | inr e ↦ elim (Bool-cases (category == 11 || category == 12)) [
            | inl e2 ↦ rw (e, e2) refl
            | inr e2 ↦ elim (Bool-cases (category == 13 || category == 14)) [
              | inl e3 ↦ rw (e, e2, e3) refl
              | inr e3 ↦ rw (e, e2, e3) refl
            ]
          ]
        ])

  date_at :
      (p : ℕ)
      → get_datetime 9 body p
        ≡ (record { date = from_digits (read_u32 body p); hour = 0; minute = 0 }, p + 4)
  unfolding get_datetime has_time
  date_at p = refl

  event_step_reads :
      (p : ℕ) → p + 29 ≤ length body → event_step fl body p ≡ ok (some (event_at p, p + 29))
  unfolding event_step read_event
  event_step_reads p h =
      let room : ltb (length body) (p + 29) ≡ false = ground arith in
      let inside : leb (p + 13 + 16) (length body) ≡ true = ground arith in
      let category = byte body (p + 12) in
      let at12 : p + 8 + 4 ≡ p + 12 = omega arith in
      let at13 : p + 12 + 1 ≡ p + 13 = omega arith in
      rw
        (
          room,
          date_at (p + 8),
          at12,
          index_total body (p + 12) 0 (omega arith),
          at13,
          inside,
          slice_is body (p + 13) (omega arith),
          read_amounts_lem category (p + 13) (omega arith),
        )
        refl

  event_step_ends : (p : ℕ) → length body < p + 29 → event_step fl body p ≡ ok none
  unfolding event_step
  event_step_ends p h = rw (lt→ltb _ _ h) refl

  events_loop_lem :
      (n p : ℕ)
      → collect_checked n (event_step fl body) p ≡ ok (events_at (min n ((length body - p) / 29)) p)
  unfolding collect_checked
  events_loop_lem zero p =
      ap (λ (n : ℕ). ok (events_at n p)) {x = 0} {y = min 0 ((length body - p) / 29)} (omega arith)
  events_loop_lem (suc n) p = elim (Bool-cases (ltb (length body) (p + 29))) [
    | inl e ↦
        let none_left : min (suc n) ((length body - p) / 29) ≡ 0 = ground (arith, e) in
        rw (event_step_ends p (ground (arith, e)), collect_checked, none_left) refl
    | inr e ↦
        let one_more : min (suc n) ((length body - p) / 29)
            ≡ suc (min n ((length body - (p + 29)) / 29)) =
          ground (arith, e) in
        rw
          (
            event_step_reads p (ground (arith, e)),
            collect_checked,
            events_loop_lem n (p + 29),
            one_more,
          )
          refl
  ]

module _ (fl : Floats) where
  -- On any bytes: a body of fewer than 11 is refused. Else the events are those of the records of 29
  -- bytes that are declared and lie inside, in their order: the date and the category of a record, the
  -- name of the category, and the amounts that belong to it, each from its place in the record. The
  -- parser never panics.
  pub parse_xdxr_info_valid :
      (body : Bytes)
      → (length body < 11 → parse_xdxr_info fl body ≡ err response_length_mismatch)
        × (11 ≤ length body
            → parse_xdxr_info fl body
              ≡ ok (events_at fl body (min (read_u16 body 9) ((length body - 11) / 29)) 11))
  unfolding parse_xdxr_info
  parse_xdxr_info_valid body = (
    λ short. rw (lt→ltb _ _ short) refl,
    λ full. rw (le→ltb _ _ full) (events_loop_lem fl body (read_u16 body 9) 11),
  )

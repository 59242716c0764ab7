-- ===== src/Events.antt =====
-- `parse_xdxr_info` of src/protocol/parsers.rs: the dividend and share-capital events of a security.
-- Every record takes 29 bytes; its last 16 are read by category.
pub mod Any
use tdxrs.Base.{
  ℕ, ◌+◌, ◌||◌, Bool, Option, none, some, List, [], ◌∷◌, if◌then◌else◌, ltb, leb, ◌==◌, length,
}
use tdxrs.Base.Int.{ℤ}
use tdxrs.Errors.{Outcome, ok, err, panic, ◌>>=◌, ◌>>◌, fail_if, index, slice}
use tdxrs.Errors.Codes.{response_length_mismatch}
use tdxrs.Bytes.{Bytes, read_u16, read_u32, f32_bits}
use tdxrs.Floats.{Floats}
use tdxrs.Volume.{get_volume}
use tdxrs.Text.{Text}
use tdxrs.Loop.{collect_checked}
use tdxrs.Dates.{Date, DateTime, get_datetime}

-- The names of the categories, as code points.
unfoldable pub event_name : ℕ → Text
event_name category =
    if category == 1
    then 38500 ∷ 26435 ∷ 38500 ∷ 24687 ∷ []
    else if category == 2
    then 36865 ∷ 37197 ∷ 32929 ∷ 19978 ∷ 24066 ∷ []
    else if category == 3
    then 38750 ∷ 27969 ∷ 36890 ∷ 32929 ∷ 19978 ∷ 24066 ∷ []
    else if category == 4
    then 26410 ∷ 30693 ∷ 32929 ∷ 26412 ∷ 21464 ∷ 21160 ∷ []
    else if category == 5
    then 32929 ∷ 26412 ∷ 21464 ∷ 21270 ∷ []
    else if category == 6
    then 22686 ∷ 21457 ∷ 26032 ∷ 32929 ∷ []
    else if category == 7
    then 32929 ∷ 20221 ∷ 22238 ∷ 36141 ∷ []
    else if category == 8
    then 22686 ∷ 21457 ∷ 26032 ∷ 32929 ∷ 19978 ∷ 24066 ∷ []
    else if category == 9
    then 36716 ∷ 37197 ∷ 32929 ∷ 19978 ∷ 24066 ∷ []
    else if category == 10
    then 21487 ∷ 36716 ∷ 20538 ∷ 19978 ∷ 24066 ∷ []
    else if category == 11
    then 25193 ∷ 32553 ∷ 32929 ∷ []
    else if category == 12
    then 38750 ∷ 27969 ∷ 36890 ∷ 32929 ∷ 32553 ∷ 32929 ∷ []
    else if category == 13
    then 36865 ∷ 35748 ∷ 36141 ∷ 26435 ∷ 35777 ∷ []
    else if category == 14
    then 36865 ∷ 35748 ∷ 27837 ∷ 26435 ∷ 35777 ∷ []
    else 26410 ∷ 30693 ∷ []

module _ (fl : Floats) where
  open fl use {F64, of_f32, literal}

  -- The fields that depend on the category.
  pub record Amounts : Type 0 where
    pub fenhong : Option F64
    pub peigujia : Option F64
    pub songzhuangu : Option F64
    pub peigu : Option F64
    pub suogu : Option F64
    pub panqianliutong : Option F64
    pub panhouliutong : Option F64
    pub qianzongguben : Option F64
    pub houzongguben : Option F64
    pub fenshu : Option F64
    pub xingquanjia : Option F64

  pub record XdXrInfo : Type 0 where
    pub date : Date
    pub open date use *
    pub category : ℕ
    pub name : Text
    pub amounts : Amounts
    pub open amounts use *

  abbrev pub no_amounts : Amounts
  no_amounts = record {
    fenhong = none;
    peigujia = none;
    songzhuangu = none;
    peigu = none;
    suogu = none;
    panqianliutong = none;
    panhouliutong = none;
    qianzongguben = none;
    houzongguben = none;
    fenshu = none;
    xingquanjia = none;
  }

  abbrev pub share_volume : ℕ → Option F64
  share_volume raw = some (if raw == 0 then literal 0 0 else get_volume fl raw)

  unfoldable pub dividend_amounts : Bytes → Outcome Amounts
  dividend_amounts d = do
    fenhong ← f32_bits d 0
    peigujia ← f32_bits d 4
    songzhuangu ← f32_bits d 8
    peigu ← f32_bits d 12
    ok (record no_amounts {
      fenhong = some (of_f32 fenhong);
      peigujia = some (of_f32 peigujia);
      songzhuangu = some (of_f32 songzhuangu);
      peigu = some (of_f32 peigu);
    })

  unfoldable pub split_amounts : Bytes → Outcome Amounts
  split_amounts d = do suogu ← f32_bits d 8; ok (record no_amounts { suogu = some (of_f32 suogu) })

  unfoldable pub warrant_amounts : Bytes → Outcome Amounts
  warrant_amounts d = do
    xingquanjia ← f32_bits d 0
    fenshu ← f32_bits d 8
    ok (record no_amounts {
      xingquanjia = some (of_f32 xingquanjia);
      fenshu = some (of_f32 fenshu);
    })

  unfoldable pub capital_amounts : Bytes → Amounts
  capital_amounts d = record no_amounts {
    panqianliutong = share_volume (read_u32 d 0);
    panhouliutong = share_volume (read_u32 d 8);
    qianzongguben = share_volume (read_u32 d 4);
    houzongguben = share_volume (read_u32 d 12);
  }

  unfoldable pub read_amounts : ℕ → Bytes → Outcome Amounts
  read_amounts category d =
      if category == 1
      then dividend_amounts d
      else if category == 11 || category == 12
      then split_amounts d
      else if category == 13 || category == 14
      then warrant_amounts d
      else ok (capital_amounts d)

  -- The record at `p`, whose date is at `p + 8`.
  unfoldable pub read_event : Bytes → ℕ → Outcome XdXrInfo
  read_event body p = do
    let (t, p1) = get_datetime 9 body (p + 8)
    category ← index body p1
    amounts ←
        if leb (p1 + 1 + 16) (length body)
        then slice body (p1 + 1) (p1 + 1 + 16) >>= read_amounts category
        else ok no_amounts
    ok (record {
      date = t.date;
      category = category;
      name = event_name category;
      amounts = amounts;
    })

  unfoldable pub event_step : Bytes → ℕ → Outcome (Option (XdXrInfo × ℕ))
  event_step body p =
      if ltb (length body) (p + 29)
      then ok none
      else read_event body p >>= (λ event. ok (some (event, p + 29)))

  unfoldable pub parse_xdxr_info : Bytes → Outcome (List XdXrInfo)
  parse_xdxr_info body = do
    fail_if (ltb (length body) 11) response_length_mismatch
    collect_checked (read_u16 body 9) (event_step body) 11

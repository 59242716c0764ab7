-- ===== src/Finance/Layout.antt =====
-- `parse_finance_info` reads each field at its place in the record.
use tdxrs.Base.{
  ℕ, zero, suc, ◌+◌, ◌*◌, ◌≤◌, ◌<◌, ◌≡◌, refl, List, [], ◌∷◌, length, arith, le→ltb, lt→ltb,
}
use tdxrs.Errors.{ok, err}
use tdxrs.Errors.Codes.{response_length_mismatch}
use tdxrs.Bytes.{Bytes, read_u16, read_u32}
use tdxrs.Bytes.Layout.{f32_bits-read_u32}
use tdxrs.Floats.{Floats}
use tdxrs.Text.{Text}
use tdxrs.Finance.{FinanceInfo, read_single, read_fields, parse_finance_info}

module _ (fl : Floats) where
  -- The singles at `p`, `p + 4` and so on.
  abbrev pub singles : ℕ → Bytes → ℕ → List fl.F64
  singles zero body p = []
  singles (suc n) body p = fl.of_f32 (read_u32 body p) ∷ singles n body (p + 4)

  -- The named fields in the order in which the source declares them.
  abbrev pub amounts : FinanceInfo fl → List fl.F64
  amounts info =
      info.zongguben ∷ info.guojiagu ∷ info.faqirenfarengu ∷ info.farengu ∷ info.bgu ∷ info.hgu
      ∷ info.zhigonggu ∷ info.zongzichan ∷ info.liudongzichan ∷ info.gudingzichan
      ∷ info.wuxingzichan ∷ info.gudongrenshu ∷ info.liudongfuzhai ∷ info.changqifuzhai
      ∷ info.zibengongjijin ∷ info.jingzichan ∷ info.zhuyingshouru ∷ info.zhuyinglirun
      ∷ info.yingshouzhangkuan ∷ info.yingyelirun ∷ info.touzishouyu ∷ info.jingyingxianjinliu
      ∷ info.zongxianjinliu ∷ info.cunhuo ∷ info.lirunzonghe ∷ info.shuihoulirun ∷ info.jinglirun
      ∷ info.weifenpeilirun ∷ info.meigujingzichan ∷ []

  -- The record with each field read at its place.
  abbrev laid_out : Bytes → ℕ → Text → FinanceInfo fl
  laid_out body market code =
      let single = λ (p : ℕ). fl.of_f32 (read_u32 body p) in
      record {
        market = market;
        code = code;
        liutongguben = single 9;
        province = read_u16 body 13;
        industry = read_u16 body 15;
        updated_date = read_u32 body 17;
        ipo_date = read_u32 body 21;
        zongguben = single 25;
        guojiagu = single 29;
        faqirenfarengu = single 33;
        farengu = single 37;
        bgu = single 41;
        hgu = single 45;
        zhigonggu = single 49;
        zongzichan = single 53;
        liudongzichan = single 57;
        gudingzichan = single 61;
        wuxingzichan = single 65;
        gudongrenshu = single 69;
        liudongfuzhai = single 73;
        changqifuzhai = single 77;
        zibengongjijin = single 81;
        jingzichan = single 85;
        zhuyingshouru = single 89;
        zhuyinglirun = single 93;
        yingshouzhangkuan = single 97;
        yingyelirun = single 101;
        touzishouyu = single 105;
        jingyingxianjinliu = single 109;
        zongxianjinliu = single 113;
        cunhuo = single 117;
        lirunzonghe = single 121;
        shuihoulirun = single 125;
        jinglirun = single 129;
        weifenpeilirun = single 133;
        meigujingzichan = single 137;
      }

  read_single_lem :
      (body : Bytes) (p : ℕ)
      → p + 4 ≤ length body
      → read_single fl body p ≡ ok (fl.of_f32 (read_u32 body p))
  unfolding read_single
  read_single_lem body p h = rw (f32_bits-read_u32 body p h) refl

  read_fields_lem :
      (n : ℕ) (body : Bytes) (p : ℕ)
      → p + 4 * n ≤ length body
      → read_fields fl n body p ≡ ok (singles n body p)
  unfolding read_fields
  read_fields_lem zero body p h = refl
  read_fields_lem (suc n) body p h =
      rw (read_single_lem body p (omega arith), read_fields_lem n body (p + 4) (omega arith)) refl

  -- A body shorter than 145 bytes is refused. Any other gives a record with the requested market and
  -- code, the floating shares at 9, the two numbers at 13 and 15, the two dates at 17 and 21 and the
  -- twenty-nine named amounts one after the other from 25 on.
  pub parse_finance_info_lem :
      (body : Bytes) (market : ℕ) (code : Text)
      → (length body < 145 → parse_finance_info fl body market code ≡ err response_length_mismatch)
        × (145 ≤ length body
            → (info : FinanceInfo fl) × (parse_finance_info fl body market code ≡ ok info)
              × ((info.market ≡ market) × (info.code ≡ code))
              × (info.liutongguben ≡ fl.of_f32 (read_u32 body 9))
              × ((info.province ≡ read_u16 body 13) × (info.industry ≡ read_u16 body 15))
              × ((info.updated_date ≡ read_u32 body 17) × (info.ipo_date ≡ read_u32 body 21))
              × (amounts info ≡ singles 29 body 25))
  unfolding parse_finance_info
  parse_finance_info_lem body market code = (
    λ short. rw (lt→ltb _ _ short) refl,
    λ full. (
      laid_out body market code,
      rw
          (
            le→ltb (length body) 145 full,
            read_single_lem body 9 (omega arith),
            read_fields_lem 30 body 25 (omega arith),
          )
          refl,
      (refl, refl),
      refl,
      (refl, refl),
      (refl, refl),
      refl,
    ),
  )

-- ===== src/Finance.antt =====
-- `parse_finance_info` of src/protocol/parsers.rs: one record of fixed layout, thirty singles at its
-- end of which twenty-nine have a name.
pub mod Layout
use tdxrs.Base.{ℕ, zero, suc, ◌+◌, Bool, List, [], ◌∷◌, if◌then◌else◌, ltb, length}
use tdxrs.Errors.{Outcome, ok, ◌>>=◌, ◌>>◌, fail_if, index}
use tdxrs.Errors.Codes.{response_length_mismatch}
use tdxrs.Bytes.{Bytes, read_u16, read_u32, f32_bits}
use tdxrs.Floats.{Floats}
use tdxrs.Text.{Text}

module _ (fl : Floats) where
  open fl use {F64, of_f32}

  pub record FinanceInfo : Type 0 where
    pub market : ℕ
    pub code : Text
    pub liutongguben : F64
    pub province : ℕ
    pub industry : ℕ
    pub updated_date : ℕ
    pub ipo_date : ℕ
    pub zongguben : F64
    pub guojiagu : F64
    pub faqirenfarengu : F64
    pub farengu : F64
    pub bgu : F64
    pub hgu : F64
    pub zhigonggu : F64
    pub zongzichan : F64
    pub liudongzichan : F64
    pub gudingzichan : F64
    pub wuxingzichan : F64
    pub gudongrenshu : F64
    pub liudongfuzhai : F64
    pub changqifuzhai : F64
    pub zibengongjijin : F64
    pub jingzichan : F64
    pub zhuyingshouru : F64
    pub zhuyinglirun : F64
    pub yingshouzhangkuan : F64
    pub yingyelirun : F64
    pub touzishouyu : F64
    pub jingyingxianjinliu : F64
    pub zongxianjinliu : F64
    pub cunhuo : F64
    pub lirunzonghe : F64
    pub shuihoulirun : F64
    pub jinglirun : F64
    pub weifenpeilirun : F64
    pub meigujingzichan : F64

  unfoldable pub read_single : Bytes → ℕ → Outcome F64
  read_single body p = f32_bits body p >>= (λ bits. ok (of_f32 bits))

  -- The loop over the thirty fields.
  unfoldable pub read_fields : ℕ → Bytes → ℕ → Outcome (List F64)
  read_fields zero body p = ok []
  read_fields (suc n) body p = do
    val ← read_single body p
    fields ← read_fields n body (p + 4)
    ok (val ∷ fields)

  unfoldable pub parse_finance_info : Bytes → ℕ → Text → Outcome FinanceInfo
  parse_finance_info body market code = do
    fail_if (ltb (length body) (9 + 136)) response_length_mismatch
    liutongguben ← read_single body 9
    fields ← read_fields 30 body 25
    zongguben ← index fields 0
    guojiagu ← index fields 1
    faqirenfarengu ← index fields 2
    farengu ← index fields 3
    bgu ← index fields 4
    hgu ← index fields 5
    zhigonggu ← index fields 6
    zongzichan ← index fields 7
    liudongzichan ← index fields 8
    gudingzichan ← index fields 9
    wuxingzichan ← index fields 10
    gudongrenshu ← index fields 11
    liudongfuzhai ← index fields 12
    changqifuzhai ← index fields 13
    zibengongjijin ← index fields 14
    jingzichan ← index fields 15
    zhuyingshouru ← index fields 16
    zhuyinglirun ← index fields 17
    yingshouzhangkuan ← index fields 18
    yingyelirun ← index fields 19
    touzishouyu ← index fields 20
    jingyingxianjinliu ← index fields 21
    zongxianjinliu ← index fields 22
    cunhuo ← index fields 23
    lirunzonghe ← index fields 24
    shuihoulirun ← index fields 25
    jinglirun ← index fields 26
    weifenpeilirun ← index fields 27
    meigujingzichan ← index fields 28
    ok (record {
      market = market;
      code = code;
      liutongguben = liutongguben;
      province = read_u16 body 13;
      industry = read_u16 body 15;
      updated_date = read_u32 body 17;
      ipo_date = read_u32 body 21;
      zongguben = zongguben;
      guojiagu = guojiagu;
      faqirenfarengu = faqirenfarengu;
      farengu = farengu;
      bgu = bgu;
      hgu = hgu;
      zhigonggu = zhigonggu;
      zongzichan = zongzichan;
      liudongzichan = liudongzichan;
      gudingzichan = gudingzichan;
      wuxingzichan = wuxingzichan;
      gudongrenshu = gudongrenshu;
      liudongfuzhai = liudongfuzhai;
      changqifuzhai = changqifuzhai;
      zibengongjijin = zibengongjijin;
      jingzichan = jingzichan;
      zhuyingshouru = zhuyingshouru;
      zhuyinglirun = zhuyinglirun;
      yingshouzhangkuan = yingshouzhangkuan;
      yingyelirun = yingyelirun;
      touzishouyu = touzishouyu;
      jingyingxianjinliu = jingyingxianjinliu;
      zongxianjinliu = zongxianjinliu;
      cunhuo = cunhuo;
      lirunzonghe = lirunzonghe;
      shuihoulirun = shuihoulirun;
      jinglirun = jinglirun;
      weifenpeilirun = weifenpeilirun;
      meigujingzichan = meigujingzichan;
    })

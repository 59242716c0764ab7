-- ===== src/Tests/Records.antt =====
-- An event of category 1 and a record of finance data of zeros.
use tdxrs.Base.{◌<◌, ◌≤◌, ◌-◌, ◌/◌, ◌≡◌, [], ◌∷◌, ◌++◌, length, replicate, min, arith}
use tdxrs.Errors.{ok, err}
use tdxrs.Errors.Codes.{response_length_mismatch}
use tdxrs.Bytes.{Bytes, read_u16, read_u32}
use tdxrs.Floats.{symbols}
use tdxrs.Events.{parse_xdxr_info}
use tdxrs.Events.Any.{events_at, parse_xdxr_info_valid}
use tdxrs.Finance.{FinanceInfo, parse_finance_info}
use tdxrs.Finance.Layout.{singles, amounts, parse_finance_info_lem}

-- Two events are declared, one is there.
abbrev event_body : Bytes
event_body = replicate 9 0 ++ (2 ∷ 0 ∷ (replicate 12 0 ++ (1 ∷ replicate 20 0)))

parse_xdxr_info_valid_example :
    (length event_body < 11 → parse_xdxr_info symbols event_body ≡ err response_length_mismatch)
    × (11 ≤ length event_body
        → parse_xdxr_info symbols event_body
          ≡ ok (
              events_at symbols event_body
                (min (read_u16 event_body 9) ((length event_body - 11) / 29))
                11))
parse_xdxr_info_valid_example = parse_xdxr_info_valid symbols event_body

abbrev finance_body : Bytes
finance_body = replicate 145 0

parse_finance_info_example :
    (info : FinanceInfo symbols) × (parse_finance_info symbols finance_body 1 (54 ∷ []) ≡ ok info)
    × ((info.market ≡ 1) × (info.code ≡ 54 ∷ []))
    × (info.liutongguben ≡ symbols.of_f32 (read_u32 finance_body 9))
    × ((info.province ≡ read_u16 finance_body 13) × (info.industry ≡ read_u16 finance_body 15))
    × ((info.updated_date ≡ read_u32 finance_body 17) × (info.ipo_date ≡ read_u32 finance_body 21))
    × (amounts symbols info ≡ singles symbols 29 finance_body 25)
parse_finance_info_example =
    (parse_finance_info_lem symbols finance_body 1 (54 ∷ [])).1 (omega arith)

-- ===== src/Listing.antt =====
-- `parse_security_count`, `parse_security_list`, `parse_block_info_meta` and `parse_block_info` of
-- src/protocol/parsers.rs. The GBK decoder of a name is a parameter.
pub mod Any
use tdxrs.Base.{ℕ, ◌+◌, Bool, Option, none, some, List, [], ◌∷◌, if◌then◌else◌, ltb, length, drop}
use tdxrs.Errors.{Outcome, ok, ◌>>=◌, ◌>>◌, fail_if, index, slice}
use tdxrs.Errors.Codes.{response_length_mismatch}
use tdxrs.Bytes.{Bytes, read_u16, read_u32}
use tdxrs.Floats.{Floats}
use tdxrs.Volume.{get_volume}
use tdxrs.Text.{Text, trim_nul, hex_bytes}
use tdxrs.Text.Utf8.{from_utf8_lossy}
use tdxrs.Loop.{collect_checked}

unfoldable pub parse_security_count : Bytes → Outcome ℕ
parse_security_count body = do
  fail_if (ltb (length body) 2) response_length_mismatch
  ok (read_u16 body 0)

pub record BlockInfoMeta : Type 0 where
  pub size : ℕ
  pub hash_value : Text

unfoldable pub parse_block_info_meta : Bytes → Outcome BlockInfoMeta
parse_block_info_meta body = do
  fail_if (ltb (length body) 38) response_length_mismatch
  hash_bytes ← slice body 5 37
  ok (record { size = read_u32 body 0; hash_value = hex_bytes hash_bytes })

unfoldable pub parse_block_info : Bytes → Outcome Bytes
parse_block_info body = if ltb 4 (length body) then ok (drop 4 body) else ok []

module _ (fl : Floats) (decode_gbk : Bytes → Text) where
  open fl use {F64}

  pub record SecurityInfo : Type 0 where
    pub code : Text
    pub volunit : ℕ
    pub decimal_point : ℕ
    pub name : Text
    pub pre_close : F64

  -- One record: code, volume unit, name, four bytes skipped, decimals, last close, four skipped.
  unfoldable pub read_security : Bytes → ℕ → Outcome SecurityInfo
  read_security body p = do
    code_bytes ← slice body p (p + 6)
    name_bytes ← slice body (p + 8) (p + 16)
    decimal_point ← index body (p + 20)
    ok (record {
      code = trim_nul (from_utf8_lossy code_bytes);
      volunit = read_u16 body (p + 6);
      decimal_point = decimal_point;
      name = trim_nul (decode_gbk name_bytes);
      pre_close = get_volume fl (read_u32 body (p + 21));
    })

  unfoldable pub security_step : Bytes → ℕ → Outcome (Option (SecurityInfo × ℕ))
  security_step body p =
      if ltb (length body) (p + 29)
      then ok none
      else read_security body p >>= (λ info. ok (some (info, p + 29)))

  unfoldable pub parse_security_list : Bytes → Outcome (List SecurityInfo)
  parse_security_list body = do
    fail_if (ltb (length body) 2) response_length_mismatch
    collect_checked (read_u16 body 0) (security_step body) 2

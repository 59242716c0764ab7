-- ===== src/Requests.antt =====
-- The encoding of requests in src/net/utils.rs and the response header of src/net/packet.rs. A code
-- is given by its UTF-8 bytes.
pub mod Codes
pub mod Packets
use tdxrs.Base.{
  ℕ, ◌+◌, ◌-◌, ◌%◌, ◌^◌, Bool, true, false, ◌&&◌, ◌||◌, not, List, [], ◌∷◌, ◌++◌, if◌then◌else◌,
  ltb, leb, ◌==◌, length, take, replicate, min,
}
use tdxrs.Errors.{Outcome, ok, err, ◌>>=◌, ◌>>◌, fail_if, TdxError}
use tdxrs.Errors.Codes.{with_code}
use tdxrs.Bytes.{Bytes, read_u16, read_u32}
use tdxrs.Bytes.Layout.{le16, le32}

-- Six bytes whatever the code is: cut, or filled up with zeros.
unfoldable pub code_bytes : Bytes → Bytes
code_bytes code = let len = min (length code) 6 in take len code ++ replicate (6 - len) 0

abbrev pub is_ascii_alphanumeric : ℕ → Bool
is_ascii_alphanumeric b = leb 48 b && leb b 57 || leb 65 b && leb b 90 || leb 97 b && leb b 122

unfoldable pub all_alphanumeric : Bytes → Bool
all_alphanumeric [] = true
all_alphanumeric (b ∷ bs) = is_ascii_alphanumeric b && all_alphanumeric bs

abbrev pub invalid_stock_code : TdxError
invalid_stock_code = with_code 3003

abbrev pub unknown_code_format : TdxError
unknown_code_format = with_code 1104

unfoldable pub code_bytes_strict : Bytes → Outcome Bytes
code_bytes_strict code =
    if not (length code == 6) || not (all_alphanumeric code)
    then err invalid_stock_code
    else ok code

-- The market of a code by its first character; the other checks of a code are the caller's.
unfoldable pub auto_market : Bytes → Outcome ℕ
auto_market [] = err invalid_stock_code
auto_market (c ∷ cs) =
    if not (length (c ∷ cs) == 6)
    then err invalid_stock_code
    else if c == 54
    then ok 1
    else if c == 48 || c == 51
    then ok 0
    else err unknown_code_format

-- `start as u16` wraps around; `fq` does not enter the packet.
unfoldable pub build_security_bars_packet : ℕ → ℕ → Bytes → ℕ → ℕ → ℕ → Bytes
build_security_bars_packet category market code start count fq =
    le16 0x010C
    ++ (le32 0x01016408
        ++ (le16 0x001C
            ++ (le16 0x001C
                ++ (le16 0x052D
                    ++ (le16 market
                        ++ (code_bytes code
                            ++ (le16 category
                                ++ (le16 1
                                    ++ (le16 (start % 2 ^ 16)
                                        ++ (le16 count ++ (le32 0 ++ (le32 0 ++ le16 0))))))))))))

unfoldable pub build_index_bars_packet : ℕ → ℕ → Bytes → ℕ → ℕ → ℕ → Bytes
build_index_bars_packet category market code start count fq =
    build_security_bars_packet category market code start count fq

pub record ResponseHeader : Type 0 where
  pub seq : ℕ
  pub method : ℕ
  pub zip_size : ℕ
  pub unzip_size : ℕ

unfoldable pub parse_header : Bytes → Outcome ResponseHeader
parse_header buf = do
  fail_if (ltb (length buf) 16) (with_code 2101)
  ok (record {
    seq = read_u32 buf 0;
    method = read_u32 buf 4;
    zip_size = read_u16 buf 12;
    unzip_size = read_u16 buf 14;
  })

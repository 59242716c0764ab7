-- ===== src/Requests/Packets.antt =====
-- The bars packet read back, and the response header.
use tdxrs.Base.{
  ℕ, ◌%◌, ◌^◌, ◌<◌, ◌≡◌, refl, sym, ◌++◌, length, drop, arith, length-append, le→ltb, lt→ltb,
}
use tdxrs.Errors.{ok, err}
use tdxrs.Errors.Codes.{with_code}
use tdxrs.Bytes.{Bytes, read_u16}
use tdxrs.Bytes.Layout.{le16, le32}
use tdxrs.Wire.{At-zero, At-skip, At-u16, At-u32}
use tdxrs.Requests.{code_bytes, build_security_bars_packet, ResponseHeader, parse_header}
use tdxrs.Requests.Codes.{length-code_bytes}

-- The packet has 38 bytes, whose fields read back as they were given: the command, the market, the
-- six code bytes, the category, the fixed flag 1, the start and the count. A start of 2 ^ 16 or more
-- wraps around.
pub build_security_bars_packet_lem :
    (category market : ℕ) (code : Bytes) (start count fq : ℕ)
    → category < 256
    → market < 256
    → count < 2 ^ 16
    → let packet = build_security_bars_packet category market code start count fq in
      (length packet ≡ 38)
      × (read_u16 packet 10 ≡ 0x052D)
      × (read_u16 packet 12 ≡ market)
      × (drop 14 packet ≡ code_bytes code ++ drop 20 packet)
      × (read_u16 packet 20 ≡ category)
      × (read_u16 packet 22 ≡ 1)
      × (read_u16 packet 24 ≡ start % 2 ^ 16)
      × (read_u16 packet 26 ≡ count)
unfolding build_security_bars_packet
build_security_bars_packet_lem category market code start count fq hc hm hn =
    let packet = build_security_bars_packet category market code start count fq in
    let here2 = At-skip packet 0 (le16 0x010C) _ 2 refl (At-zero packet) in
    let here6 = At-skip packet 2 (le32 0x01016408) _ 4 refl here2 in
    let here8 = At-skip packet 6 (le16 0x001C) _ 2 refl here6 in
    let here10 = At-skip packet 8 (le16 0x001C) _ 2 refl here8 in
    let (e10, here12) = At-u16 packet 10 0x052D _ (omega arith) here10 in
    let (e12, here14) = At-u16 packet 12 market _ (omega arith) here12 in
    let here20 = At-skip packet 14 (code_bytes code) _ 6 (sym (length-code_bytes code)) here14 in
    let (e20, here22) = At-u16 packet 20 category _ (omega arith) here20 in
    let (e22, here24) = At-u16 packet 22 1 _ (omega arith) here22 in
    let (e24, here26) = At-u16 packet 24 (start % 2 ^ 16) _ (omega arith) here24 in
    let (e26, here28) = At-u16 packet 26 count _ (omega arith) here26 in
    (
      simp length-append (omega (arith, length-code_bytes code)),
      e10,
      e12,
      rw here20.0 here14.0,
      e20,
      e22,
      e24,
      e26,
    )

-- A header of fewer than 16 bytes is refused with the code 2101. Sixteen bytes that spell out a
-- header and four reserved bytes, with anything behind them, are read as this header.
pub parse_header_lem :
    (header : ResponseHeader) (reserved : ℕ) (rest : Bytes)
    → header.seq < 2 ^ 32
    → header.method < 2 ^ 32
    → header.zip_size < 2 ^ 16
    → header.unzip_size < 2 ^ 16
    → ((buf : Bytes) → length buf < 16 → parse_header buf ≡ err (with_code 2101))
      × (parse_header (
            le32 header.seq
            ++ (le32 header.method
                ++ (le32 reserved ++ (le16 header.zip_size ++ (le16 header.unzip_size ++ rest)))))
          ≡ ok header)
unfolding parse_header
parse_header_lem header reserved rest hs hm hz hu =
    let buf : Bytes =
      le32 header.seq
      ++ (le32 header.method
          ++ (le32 reserved ++ (le16 header.zip_size ++ (le16 header.unzip_size ++ rest)))) in
    let (e0, here4) = At-u32 buf 0 header.seq _ hs (At-zero buf) in
    let (e4, here8) = At-u32 buf 4 header.method _ hm here4 in
    let here12 = At-skip buf 8 (le32 reserved) _ 4 refl here8 in
    let (e12, here14) = At-u16 buf 12 header.zip_size _ hz here12 in
    let (e14, here16) = At-u16 buf 14 header.unzip_size _ hu here14 in
    (
      λ short lt. rw (lt→ltb _ _ lt) refl,
      rw (e0, e4, e12, e14, le→ltb (length buf) 16 (omega arith)) refl,
    )

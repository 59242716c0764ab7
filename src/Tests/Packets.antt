-- ===== src/Tests/Packets.antt =====
-- The code 600519 in requests, and a response header.
use tdxrs.Base.{◌%◌, ◌^◌, ◌≡◌, [], ◌∷◌, ◌++◌, length, drop, arith}
use tdxrs.Bytes.{Bytes, read_u16}
use tdxrs.Requests.{code_bytes, build_security_bars_packet, ResponseHeader}
use tdxrs.Requests.Packets.{build_security_bars_packet_lem}

abbrev stock : Bytes
stock = 54 ∷ 48 ∷ 48 ∷ 53 ∷ 49 ∷ 57 ∷ []

build_security_bars_packet_example :
    let packet = build_security_bars_packet 9 1 stock 70000 800 0 in
    (length packet ≡ 38)
    × (read_u16 packet 10 ≡ 0x052D)
    × (read_u16 packet 12 ≡ 1)
    × (drop 14 packet ≡ code_bytes stock ++ drop 20 packet)
    × (read_u16 packet 20 ≡ 9)
    × (read_u16 packet 22 ≡ 1)
    × (read_u16 packet 24 ≡ 70000 % 2 ^ 16)
    × (read_u16 packet 26 ≡ 800)
build_security_bars_packet_example =
    build_security_bars_packet_lem 9 1 stock 70000 800 0 (omega arith) (omega arith) (omega arith)

abbrev small_header : ResponseHeader
small_header = record { seq = 1; method = 2; zip_size = 100; unzip_size = 200 }

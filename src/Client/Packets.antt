-- ===== src/Client/Packets.antt =====
-- The packets that the methods of src/net/client.rs build.
use tdxrs.Base.{ℕ, ◌+◌, ◌-◌, ◌*◌, ◌%◌, ◌^◌, List, [], ◌∷◌, ◌++◌, length, take, replicate, min}
use tdxrs.Bytes.{Bytes}
use tdxrs.Bytes.Layout.{le16, le32}
use tdxrs.Requests.{code_bytes}

unfoldable pub quotes_entries : List (ℕ × Bytes) → Bytes
quotes_entries [] = []
quotes_entries ((market, code) ∷ xs) = market ∷ (code_bytes code ++ quotes_entries xs)

unfoldable pub quotes_packet : List (ℕ × Bytes) → Bytes
unfolding quotes_entries
quotes_packet all_stock =
    let stock_len = length all_stock % 2 ^ 16 in
    let pkgdatalen = (stock_len * 7 + 12) % 2 ^ 16 in
    le16 0x010C
    ++ (le32 0x02006320
        ++ (le16 pkgdatalen
            ++ (le16 pkgdatalen
                ++ (le32 0x5053E
                    ++ (le32 0 ++ (le16 0 ++ (le16 stock_len ++ quotes_entries all_stock)))))))

unfoldable pub list_packet : ℕ → ℕ → Bytes
list_packet market start =
    (12 ∷ 1 ∷ 24 ∷ 100 ∷ 1 ∷ 1 ∷ 6 ∷ 0 ∷ 6 ∷ 0 ∷ 80 ∷ 4 ∷ []) ++ (le16 market ++ le16 start)

unfoldable pub count_packet : ℕ → Bytes
count_packet market =
    (12 ∷ 12 ∷ 24 ∷ 108 ∷ 0 ∷ 1 ∷ 8 ∷ 0 ∷ 8 ∷ 0 ∷ 78 ∷ 4 ∷ [])
    ++ (le16 market ++ (117 ∷ 199 ∷ 51 ∷ 1 ∷ []))

unfoldable pub history_minutes_packet : ℕ → ℕ → Bytes → Bytes
history_minutes_packet date market code_buf =
    (12 ∷ 1 ∷ 48 ∷ 0 ∷ 1 ∷ 1 ∷ 13 ∷ 0 ∷ 13 ∷ 0 ∷ 180 ∷ 15 ∷ [])
    ++ (le32 date ++ (market ∷ code_buf))

unfoldable pub ticks_packet : ℕ → Bytes → ℕ → ℕ → Bytes
ticks_packet market code_buf start count =
    (12 ∷ 23 ∷ 8 ∷ 1 ∷ 1 ∷ 1 ∷ 14 ∷ 0 ∷ 14 ∷ 0 ∷ 197 ∷ 15 ∷ [])
    ++ (le16 market ++ (code_buf ++ (le16 start ++ le16 count)))

unfoldable pub history_ticks_packet : ℕ → ℕ → Bytes → ℕ → ℕ → Bytes
history_ticks_packet date market code_buf start count =
    (12 ∷ 1 ∷ 48 ∷ 1 ∷ 0 ∷ 1 ∷ 18 ∷ 0 ∷ 18 ∷ 0 ∷ 181 ∷ 15 ∷ [])
    ++ (le32 date ++ (le16 market ++ (code_buf ++ (le16 start ++ le16 count))))

unfoldable pub finance_packet : ℕ → Bytes → Bytes
finance_packet market code_buf =
    (12 ∷ 31 ∷ 24 ∷ 118 ∷ 0 ∷ 1 ∷ 11 ∷ 0 ∷ 11 ∷ 0 ∷ 16 ∷ 0 ∷ 1 ∷ 0 ∷ []) ++ (market ∷ code_buf)

unfoldable pub xdxr_packet : ℕ → Bytes → Bytes
xdxr_packet market code_buf =
    (12 ∷ 31 ∷ 24 ∷ 118 ∷ 0 ∷ 1 ∷ 11 ∷ 0 ∷ 11 ∷ 0 ∷ 15 ∷ 0 ∷ 1 ∷ 0 ∷ []) ++ (market ∷ code_buf)

-- A name cut or filled up with zeros.
unfoldable pub name_field : ℕ → Bytes → Bytes
name_field width name =
    let len = min (length name) width in take len name ++ replicate (width - len) 0

unfoldable pub block_meta_packet : Bytes → Bytes
unfolding name_field
block_meta_packet block_file =
    (12 ∷ 57 ∷ 24 ∷ 105 ∷ 0 ∷ 1 ∷ 42 ∷ 0 ∷ 42 ∷ 0 ∷ 197 ∷ 2 ∷ []) ++ name_field 40 block_file

unfoldable pub block_packet : Bytes → ℕ → ℕ → Bytes
unfolding name_field
block_packet block_file start size =
    (12 ∷ 55 ∷ 24 ∷ 106 ∷ 0 ∷ 1 ∷ 110 ∷ 0 ∷ 110 ∷ 0 ∷ 185 ∷ 6 ∷ [])
    ++ (le32 start ++ (le32 size ++ name_field 100 block_file))

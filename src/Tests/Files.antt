-- ===== src/Tests/Files.antt =====
-- Local files: one record of 32 bytes, a file with one block of one code, and one of reports.
use tdxrs.Base.{◌≡◌, ◌<◌, ◌≤◌, ◌-◌, ◌/◌, [], ◌∷◌, ◌++◌, replicate, length, min}
use tdxrs.Errors.{ok, err, TdxError}
use tdxrs.Bytes.{Bytes, read_u16, read_u32}
use tdxrs.Floats.{symbols, Symbol}
use tdxrs.Reader.{
  read_daily, read_min, read_lc_min, parse_daily_bar, parse_min_bar, parse_lc_min_bar,
}
use tdxrs.Reader.Records.{ReadsAll, parse_files_lem}
use tdxrs.Reader.Block.{parse_block, parse_block_group}
use tdxrs.Reader.Block.Groups.{
  or_refused, is_file, all_records, all_groups, blocks_at, parse_block_lem,
}
use tdxrs.Reader.Financial.{parse_financial}
use tdxrs.Reader.Financial.Any.{records_at, parse_financial_lem}

abbrev one_record : Bytes
one_record = replicate 32 7

parse_files_example :
    ReadsAll one_record
      (read_daily symbols one_record (Symbol.decimal 1 2))
      (parse_daily_bar symbols one_record (Symbol.decimal 1 2))
    × ReadsAll one_record (read_min symbols one_record) (parse_min_bar symbols one_record)
    × ReadsAll one_record (read_lc_min symbols one_record) (parse_lc_min_bar symbols one_record)
parse_files_example = parse_files_lem symbols one_record (Symbol.decimal 1 2)

abbrev one_block : Bytes
one_block =
    replicate 384 0 ++ (1 ∷ 0 ∷ (replicate 9 65 ++ (1 ∷ 0 ∷ 2 ∷ 0 ∷ (replicate 6 49 ++ (0 ∷ [])))))

parse_block_example :
    (parse_block (λ b. b) one_block
      ≡ or_refused
          (is_file (λ b. b) one_block)
          (all_records (blocks_at (λ b. b) one_block (read_u16 one_block 384) 386)))
    × (parse_block_group (λ b. b) one_block
        ≡ or_refused
            (is_file (λ b. b) one_block)
            (all_groups (blocks_at (λ b. b) one_block (read_u16 one_block 384) 386)))
parse_block_example = parse_block_lem (λ b. b) one_block

-- Two items, of which the second points outside.
abbrev reports : Bytes
reports =
    1
    ∷ 0
    ∷ 167
    ∷ 182
    ∷ 52
    ∷ 1
    ∷ 2
    ∷ 0
    ∷ (replicate 4 0
        ++ (4
            ∷ (replicate 7 0
                ++ (replicate 6 49
                    ++ (0
                        ∷ 42
                        ∷ 0
                        ∷ 0
                        ∷ 0
                        ∷ (replicate 6 50 ++ (0 ∷ 99 ∷ 0 ∷ 0 ∷ 0 ∷ 1 ∷ 2 ∷ 3 ∷ 4 ∷ [])))))))

parse_financial_example :
    (length reports < 20 → parse_financial reports ≡ err TdxError.invalid_data)
    × (20 ≤ length reports
        → parse_financial reports
          ≡ ok (
              records_at reports
                (read_u32 reports 2)
                (read_u32 reports 12 / 4)
                (min (read_u16 reports 6) ((length reports - 20) / 11))
                0))
parse_financial_example = parse_financial_lem reports

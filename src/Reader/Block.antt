-- ===== src/Reader/Block.antt =====
-- src/reader/block.rs: its two parsers, each with its loops. The GBK decoder is a parameter.
pub mod Groups
use tdxrs.Base.{ℕ, zero, suc, ◌+◌, ◌*◌, List, [], ◌∷◌, ◌++◌, if◌then◌else◌, ltb, ◌==◌, not, length}
use tdxrs.Errors.{Outcome, ok, err, ◌>>=◌, ◌>>◌, fail_if, slice, TdxError}
use tdxrs.Bytes.{Bytes, read_u16}
use tdxrs.Text.{Text, trim_nul}

pub record BlockRecord : Type 0 where
  pub blockname : Text
  pub block_type : ℕ
  pub code_index : ℕ
  pub code : Text

pub record BlockGroup : Type 0 where
  pub blockname : Text
  pub block_type : ℕ
  pub stock_count : ℕ
  pub code_list : Text

-- `codes.join(",")`.
unfoldable pub join_codes : List Text → Text
join_codes [] = []
join_codes (code ∷ []) = code
join_codes (code ∷ c ∷ codes) = code ++ (44 ∷ join_codes (c ∷ codes))

module _ (decode_gbk : Bytes → Text) where
  -- A null-padded name or code.
  abbrev pub text_at : Bytes → Text
  text_at bytes = trim_nul (decode_gbk bytes)

  -- `parse_block`: the loop over the codes of a block, 7 bytes each, `code_index` being the first index.
  unfoldable pub record_codes : Text → ℕ → ℕ → ℕ → Bytes → ℕ → Outcome (List BlockRecord)
  record_codes block_name block_type zero code_index data_ pos = ok []
  record_codes block_name block_type (suc n) code_index data_ pos = do
    fail_if (ltb (length data_) (pos + 7)) TdxError.invalid_data
    code_bytes ← slice data_ pos (pos + 7)
    rest ← record_codes block_name block_type n (suc code_index) data_ (pos + 7)
    ok (
        record {
          blockname = block_name;
          block_type = block_type;
          code_index = code_index;
          code = text_at code_bytes;
        }
        ∷ rest)

  -- A round of the loop over the blocks: a header of 13 bytes, and its codes if the type is 2.
  unfoldable pub record_block : Bytes → ℕ → Outcome (List BlockRecord)
  unfolding record_codes
  record_block data_ pos = do
    fail_if (ltb (length data_) (pos + 9 + 4)) TdxError.invalid_data
    name_bytes ← slice data_ pos (pos + 9)
    let stock_count = read_u16 data_ (pos + 9)
    let block_type = read_u16 data_ (pos + 11)
    if not (block_type == 2)
        then ok []
        else record_codes (text_at name_bytes) block_type stock_count 0 data_ (pos + 13)

  -- The loop over the blocks, with 2800 bytes behind a header to the next block.
  unfoldable pub record_blocks : ℕ → Bytes → ℕ → Outcome (List BlockRecord)
  unfolding record_block
  record_blocks zero data_ pos = ok []
  record_blocks (suc n) data_ pos = do
    here ← record_block data_ pos
    rest ← record_blocks n data_ (pos + 13 + 2800)
    ok (here ++ rest)

  unfoldable pub parse_block : Bytes → Outcome (List BlockRecord)
  unfolding record_blocks
  parse_block data_ = do
    fail_if (ltb (length data_) (384 + 2)) TdxError.invalid_data
    record_blocks (read_u16 data_ 384) data_ 386

  -- `parse_block_group`: its loop over the codes of a block.
  unfoldable pub group_codes : ℕ → Bytes → ℕ → Outcome (List Text)
  group_codes zero data_ pos = ok []
  group_codes (suc n) data_ pos = do
    fail_if (ltb (length data_) (pos + 7)) TdxError.invalid_data
    code_bytes ← slice data_ pos (pos + 7)
    codes ← group_codes n data_ (pos + 7)
    ok (text_at code_bytes ∷ codes)

  unfoldable pub group_block : Bytes → ℕ → Outcome (List BlockGroup)
  unfolding group_codes join_codes
  group_block data_ pos = do
    fail_if (ltb (length data_) (pos + 9 + 4)) TdxError.invalid_data
    name_bytes ← slice data_ pos (pos + 9)
    let stock_count = read_u16 data_ (pos + 9)
    let block_type = read_u16 data_ (pos + 11)
    if not (block_type == 2)
        then ok []
        else group_codes stock_count data_ (pos + 13) >>= λ codes. ok (
            record {
              blockname = text_at name_bytes;
              block_type = block_type;
              stock_count = stock_count;
              code_list = join_codes codes;
            }
            ∷ [])

  unfoldable pub group_blocks : ℕ → Bytes → ℕ → Outcome (List BlockGroup)
  unfolding group_block
  group_blocks zero data_ pos = ok []
  group_blocks (suc n) data_ pos = do
    here ← group_block data_ pos
    rest ← group_blocks n data_ (pos + 13 + 2800)
    ok (here ++ rest)

  unfoldable pub parse_block_group : Bytes → Outcome (List BlockGroup)
  unfolding group_blocks
  parse_block_group data_ = do
    fail_if (ltb (length data_) (384 + 2)) TdxError.invalid_data
    group_blocks (read_u16 data_ 384) data_ 386

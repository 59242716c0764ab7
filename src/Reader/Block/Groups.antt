-- ===== src/Reader/Block/Groups.antt =====
-- The two parsers of src/reader/block.rs against the layout of the file.
use tdxrs.Base.{
  ℕ, zero, suc, ◌+◌, ◌-◌, ◌*◌, ◌≤◌, ◌<◌, ◌≡◌, refl, sym, ap, ◌∙◌, ==_iff, Bool, true, false, ◌&&◌,
  ◌||◌, not, List, [], ◌∷◌, ◌++◌, if◌then◌else◌, leb, ltb, ◌==◌, length, take, drop, Bool-cases,
  inl, inr, arith,
}
use mathlib.Core.List.{append-nil, append_assoc}
use tdxrs.Errors.{Outcome, ok, err, ◌>>=◌, slice, TdxError}
use tdxrs.Bytes.{Bytes, read_u16}
use tdxrs.Text.{Text}
use tdxrs.Reader.Block.{
  BlockRecord, BlockGroup, join_codes, text_at, record_codes, record_block, record_blocks,
  parse_block, group_codes, group_block, group_blocks, parse_block_group,
}

-- A block as it stands in the file.
pub record RawBlock : Type 0 where
  pub name : Text
  pub stock_count : ℕ
  pub codes : List Text

-- The records of a block, its codes being numbered from `i`.
abbrev pub records_from : Text → ℕ → List Text → List BlockRecord
records_from name i [] = []
records_from name i (code ∷ codes) =
    record { blockname = name; block_type = 2; code_index = i; code = code }
    ∷ records_from name (suc i) codes

-- What `parse_block` is to make of the blocks: a record for each code.
abbrev pub all_records : List RawBlock → List BlockRecord
all_records [] = []
all_records (b ∷ bs) = records_from b.name 0 b.codes ++ all_records bs

-- What `parse_block_group` is to make of them: a group for each block.
abbrev pub group_of : RawBlock → BlockGroup
group_of b = record {
  blockname = b.name;
  block_type = 2;
  stock_count = b.stock_count;
  code_list = join_codes b.codes;
}

abbrev pub all_groups : List RawBlock → List BlockGroup
all_groups [] = []
all_groups (b ∷ bs) = group_of b ∷ all_groups bs

-- A file which is not whole is refused.
abbrev pub or_refused : {A : Type 0} → Bool → A → Outcome A
or_refused whole a = if whole then ok a else err TdxError.invalid_data

all_records-append :
    (bs cs : List RawBlock) → all_records (bs ++ cs) ≡ all_records bs ++ all_records cs
all_records-append [] cs = refl
all_records-append (b ∷ bs) cs =
    ap (λ (l : List BlockRecord). records_from b.name 0 b.codes ++ l) (all_records-append bs cs)
    ∙ sym (append_assoc (records_from b.name 0 b.codes) (all_records bs) (all_records cs))

all_groups-append : (bs cs : List RawBlock) → all_groups (bs ++ cs) ≡ all_groups bs ++ all_groups cs
all_groups-append [] cs = refl
all_groups-append (b ∷ bs) cs =
    ap (λ (l : List BlockGroup). group_of b ∷ l) (all_groups-append bs cs)

-- Two rounds, each of which refuses or goes on.
join_rounds :
    {A : Type 0} (all : List RawBlock → List A)
    → ((bs cs : List RawBlock) → all (bs ++ cs) ≡ all bs ++ all cs)
    → (w v : Bool) (bs cs : List RawBlock)
    → (or_refused w (all bs) >>= λ here. or_refused v (all cs) >>= λ rest. ok (here ++ rest))
      ≡ or_refused (w && v) (all (bs ++ cs))
join_rounds all h true true bs cs = ap (λ l. ok l) (sym (h bs cs))
join_rounds all h true false bs cs = refl
join_rounds all h false v bs cs = refl

slice_is :
    (body : Bytes) (from n : ℕ)
    → from + n ≤ length body
    → slice body from (from + n) ≡ ok (take n (drop from body))
unfolding slice
slice_is body from n h =
    let inside : (leb from (from + n) && leb (from + n) (length body)) ≡ true = ground arith in
    let size : from + n - from ≡ n = omega arith in rw (inside, size) refl

module _ (decode_gbk : Bytes → Text) (data_ : Bytes) where
  -- `n` codes of 7 bytes each.
  abbrev pub codes_at : ℕ → ℕ → List Text
  codes_at zero pos = []
  codes_at (suc n) pos = text_at decode_gbk (take 7 (drop pos data_)) ∷ codes_at n (pos + 7)

  -- Whether a block is of type 2.
  abbrev pub counts : ℕ → Bool
  counts pos = read_u16 data_ (pos + 11) == 2

  -- The block at a position, if it counts: nine bytes of name, the number of codes, the type, the codes.
  abbrev pub block_at : ℕ → List RawBlock
  block_at pos =
      if counts pos
      then record {
        name = text_at decode_gbk (take 9 (drop pos data_));
        stock_count = read_u16 data_ (pos + 9);
        codes = codes_at (read_u16 data_ (pos + 9)) (pos + 13);
      }
        ∷ []
      else []

  -- The header lies inside, and so do the codes of a block that counts.
  abbrev pub is_whole : ℕ → Bool
  is_whole pos =
      leb (pos + 13) (length data_)
      && (not (counts pos) || leb (pos + 13 + 7 * read_u16 data_ (pos + 9)) (length data_))

  -- `n` blocks, one every 2813 bytes.
  abbrev pub blocks_at : ℕ → ℕ → List RawBlock
  blocks_at zero pos = []
  blocks_at (suc n) pos = block_at pos ++ blocks_at n (pos + 2813)

  abbrev pub are_whole : ℕ → ℕ → Bool
  are_whole zero pos = true
  are_whole (suc n) pos = is_whole pos && are_whole n (pos + 2813)

  -- A loop over `n` codes: a value if they lie inside, else the refusal.
  abbrev Codes : {A : Type 0} → ℕ → ℕ → Outcome A → A → Type 0
  Codes n pos r a =
      (pos + 7 * n ≤ length data_ → r ≡ ok a)
      × (length data_ < pos + 7 * n → r ≡ err TdxError.invalid_data)

  record_codes_lem :
      (name : Text) (n i pos : ℕ)
      → pos ≤ length data_
      → Codes n pos
          (record_codes decode_gbk name 2 n i data_ pos)
          (records_from name i (codes_at n pos))
  unfolding record_codes
  record_codes_lem name zero i pos h = (λ _. refl, λ out. absurd (omega (arith, h, out)))
  record_codes_lem name (suc n) i pos h = elim (Bool-cases (ltb (length data_) (pos + 7))) [
    | inl e ↦ (λ inside. absurd (ground (arith, e, inside)), λ _. rw (record_codes, e) refl)
    | inr e ↦
        let (good, bad) = record_codes_lem name n (suc i) (pos + 7) (ground (arith, e)) in
        let there = slice_is data_ pos 7 (ground (arith, e)) in
        (
          λ inside. rw (record_codes, e, there, good (omega (arith, inside))) refl,
          λ out. rw (record_codes, e, there, bad (omega (arith, out))) refl,
        )
  ]

  group_codes_lem :
      (n pos : ℕ)
      → pos ≤ length data_
      → Codes n pos (group_codes decode_gbk n data_ pos) (codes_at n pos)
  unfolding group_codes
  group_codes_lem zero pos h = (λ _. refl, λ out. absurd (omega (arith, h, out)))
  group_codes_lem (suc n) pos h = elim (Bool-cases (ltb (length data_) (pos + 7))) [
    | inl e ↦ (λ inside. absurd (ground (arith, e, inside)), λ _. rw (group_codes, e) refl)
    | inr e ↦
        let (good, bad) = group_codes_lem n (pos + 7) (ground (arith, e)) in
        let there = slice_is data_ pos 7 (ground (arith, e)) in
        (
          λ inside. rw (group_codes, e, there, good (omega (arith, inside))) refl,
          λ out. rw (group_codes, e, there, bad (omega (arith, out))) refl,
        )
  ]

  -- What a round comes to, `all` being what a parser makes of blocks.
  abbrev Round : {A : Type 0} → (List RawBlock → A) → ℕ → Outcome A → Type 0
  Round all pos r = r ≡ or_refused (is_whole pos) (all (block_at pos))

  record_block_lem : (pos : ℕ) → Round all_records pos (record_block decode_gbk data_ pos)
  unfolding record_block
  record_block_lem pos =
      let count = read_u16 data_ (pos + 9) in
      elim (Bool-cases (ltb (length data_) (pos + 9 + 4))) [
        | inl e ↦
            let out : leb (pos + 13) (length data_) ≡ false = ground (arith, e) in
            rw (record_block, e, out) refl
        | inr e ↦
            let header : leb (pos + 13) (length data_) ≡ true = ground (arith, e) in
            let name = slice_is data_ pos 9 (ground (arith, e)) in
            let (good, bad) =
              record_codes_lem (text_at decode_gbk (take 9 (drop pos data_))) count 0 (pos + 13)
                (ground (arith, e)) in
            elim (Bool-cases (counts pos)) [
              | inr e2 ↦ rw (record_block, e, header, name, e2) refl
              | inl e2 ↦
                  let two = (==_iff (read_u16 data_ (pos + 11)) 2).0 e2 in
                  elim (Bool-cases (leb (pos + 13 + 7 * count) (length data_))) [
                    | inl e3 ↦
                        rw (record_block, e, header, name, two, e3, good (ground (arith, e3)))
                          (ap (λ (l : List BlockRecord). ok l) (sym (append-nil _)))
                    | inr e3 ↦
                        rw (record_block, e, header, name, two, e3, bad (ground (arith, e3))) refl
                  ]
            ]
      ]

  group_block_lem : (pos : ℕ) → Round all_groups pos (group_block decode_gbk data_ pos)
  unfolding group_block
  group_block_lem pos =
      let count = read_u16 data_ (pos + 9) in
      elim (Bool-cases (ltb (length data_) (pos + 9 + 4))) [
        | inl e ↦
            let out : leb (pos + 13) (length data_) ≡ false = ground (arith, e) in
            rw (group_block, e, out) refl
        | inr e ↦
            let header : leb (pos + 13) (length data_) ≡ true = ground (arith, e) in
            let name = slice_is data_ pos 9 (ground (arith, e)) in
            let (good, bad) = group_codes_lem count (pos + 13) (ground (arith, e)) in
            elim (Bool-cases (counts pos)) [
              | inr e2 ↦ rw (group_block, e, header, name, e2) refl
              | inl e2 ↦
                  let two = (==_iff (read_u16 data_ (pos + 11)) 2).0 e2 in
                  elim (Bool-cases (leb (pos + 13 + 7 * count) (length data_))) [
                    | inl e3 ↦
                        rw (group_block, e, header, name, two, e3, good (ground (arith, e3))) refl
                    | inr e3 ↦
                        rw (group_block, e, header, name, two, e3, bad (ground (arith, e3))) refl
                  ]
            ]
      ]

  record_blocks_lem :
      (n pos : ℕ)
      → record_blocks decode_gbk n data_ pos
        ≡ or_refused (are_whole n pos) (all_records (blocks_at n pos))
  unfolding record_blocks
  record_blocks_lem zero pos = refl
  record_blocks_lem (suc n) pos =
      let next : record_blocks decode_gbk n data_ (pos + 13 + 2800)
          ≡ or_refused (are_whole n (pos + 2813)) (all_records (blocks_at n (pos + 2813))) =
        ap (λ (q : ℕ). record_blocks decode_gbk n data_ q) (omega arith)
        ∙ record_blocks_lem n (pos + 2813) in
      rw (record_blocks, record_block_lem pos, next)
        (join_rounds all_records all_records-append (is_whole pos) (are_whole n (pos + 2813))
          (block_at pos) (blocks_at n (pos + 2813)))

  group_blocks_lem :
      (n pos : ℕ)
      → group_blocks decode_gbk n data_ pos
        ≡ or_refused (are_whole n pos) (all_groups (blocks_at n pos))
  unfolding group_blocks
  group_blocks_lem zero pos = refl
  group_blocks_lem (suc n) pos =
      let next : group_blocks decode_gbk n data_ (pos + 13 + 2800)
          ≡ or_refused (are_whole n (pos + 2813)) (all_groups (blocks_at n (pos + 2813))) =
        ap (λ (q : ℕ). group_blocks decode_gbk n data_ q) (omega arith)
        ∙ group_blocks_lem n (pos + 2813) in
      rw (group_blocks, group_block_lem pos, next)
        (join_rounds all_groups all_groups-append (is_whole pos) (are_whole n (pos + 2813))
          (block_at pos) (blocks_at n (pos + 2813)))

  -- Whether the whole file is there: its head of 386 bytes and every block that it declares.
  abbrev pub is_file : Bool
  is_file = leb 386 (length data_) && are_whole (read_u16 data_ 384) 386

  -- A file that is not whole is refused by both parsers. Of one that is, they return the blocks of type
  -- 2, found every 2813 bytes behind the first 386, in order: one a record for each code, 7 bytes
  -- apart and numbered from 0 in its block, the other a group for each block, its codes joined.
  -- Neither panics.
  pub parse_block_lem :
      (parse_block decode_gbk data_
        ≡ or_refused is_file (all_records (blocks_at (read_u16 data_ 384) 386)))
      × (parse_block_group decode_gbk data_
          ≡ or_refused is_file (all_groups (blocks_at (read_u16 data_ 384) 386)))
  unfolding parse_block parse_block_group
  parse_block_lem = elim (Bool-cases (ltb (length data_) (384 + 2))) [
    | inl e ↦
        let short : leb 386 (length data_) ≡ false = ground (arith, e) in
        (rw (parse_block, e, short) refl, rw (parse_block_group, e, short) refl)
    | inr e ↦
        let long : leb 386 (length data_) ≡ true = ground (arith, e) in
        (
          rw (parse_block, e, long) (record_blocks_lem (read_u16 data_ 384) 386),
          rw (parse_block_group, e, long) (group_blocks_lem (read_u16 data_ 384) 386),
        )
  ]

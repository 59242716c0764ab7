-- ===== src/Listing/Any.antt =====
-- The parsers of the security list and of block data on any bytes.
use tdxrs.Base.{
  ℕ, ◌+◌, ◌-◌, ◌*◌, ◌/◌, ◌≤◌, ◌<◌, ◌≡◌, refl, List, [], ◌∷◌, none, some, length, arith, All, take,
  drop, length-take, length-drop, min, le→ltb, lt→ltb, get_or,
}
use tdxrs.Errors.{ok, err, slice}
use tdxrs.Errors.Codes.{response_length_mismatch}
use tdxrs.Bytes.{Bytes, IsByte, read_u16, read_u32}
use tdxrs.Bytes.Layout.{index_total, byte-IsByte, read_u16-lt}
use tdxrs.Floats.{Floats}
use tdxrs.Text.{Text, trim_nul, hex_bytes}
use tdxrs.Text.Utf8.{from_utf8_lossy, length-from_utf8_lossy, length-trim_nul}
use tdxrs.Volume.{get_volume}
use tdxrs.Loop.{collect_checked-Fills}
use tdxrs.Listing.{
  SecurityInfo, read_security, security_step, parse_security_list, BlockInfoMeta,
  parse_block_info_meta,
}

slice_total :
    (body : Bytes) (from to : ℕ)
    → from ≤ to
    → to ≤ length body
    → (d : Bytes) × (slice body from to ≡ ok d) × (length d ≡ to - from)
unfolding slice
slice_total body from to h inside = (
  take (to - from) (drop from body),
  ground arith,
  ground (arith, length-take (to - from) (drop from body), length-drop from body),
)

length-hex_bytes : (bytes : Bytes) → length (hex_bytes bytes) ≡ 2 * length bytes
unfolding hex_bytes
length-hex_bytes [] = refl
length-hex_bytes (b ∷ bs) = omega (arith, length-hex_bytes bs)

-- The meta data of a block file: a body shorter than 38 bytes is refused, any other gives the size at
-- its start and a hash of 64 characters.
pub parse_block_info_meta_lem :
    (body : Bytes)
    → (length body < 38 → parse_block_info_meta body ≡ err response_length_mismatch)
      × (38 ≤ length body
          → (meta : BlockInfoMeta) × (parse_block_info_meta body ≡ ok meta)
            × (meta.size ≡ read_u32 body 0)
            × (length meta.hash_value ≡ 64))
unfolding parse_block_info_meta
parse_block_info_meta_lem body = (
  λ short. rw (lt→ltb _ _ short) refl,
  λ full.
      let (d, e, thirty_two) = slice_total body 5 37 (omega arith) (omega arith) in
      (
        record { size = read_u32 body 0; hash_value = hex_bytes d },
        rw (le→ltb (length body) 38 full, e) refl,
        refl,
        omega (arith, length-hex_bytes d),
      ),
)

module _ (fl : Floats) (decode_gbk : Bytes → Text) where
  pub record IsInfo (info : SecurityInfo fl decode_gbk) : Type 0 where
    pub code_short : length info.code ≤ 6
    pub volunit_fits : info.volunit < 65536
    pub decimal_point_fits : info.decimal_point < 256

  security_step_reads :
      (body : Bytes)
      → All IsByte body
      → (p : ℕ) → p + 29 ≤ length body
      → (info : SecurityInfo fl decode_gbk) × (security_step fl decode_gbk body p
          ≡ ok (some (info, p + 29)))
        × IsInfo info
  unfolding security_step read_security
  security_step_reads body h p room =
      let (code_bytes, e1, six) = slice_total body p (p + 6) (omega arith) (omega arith) in
      let (name_bytes, e2, eight) = slice_total body (p + 8) (p + 16) (omega arith) (omega arith) in
      (
        record {
          code = trim_nul (from_utf8_lossy code_bytes);
          volunit = read_u16 body (p + 6);
          decimal_point = get_or body (p + 20) 0;
          name = trim_nul (decode_gbk name_bytes);
          pre_close = get_volume fl (read_u32 body (p + 21));
        },
        rw (le→ltb (length body) (p + 29) room, e1, e2, index_total body (p + 20) 0 (omega arith))
            refl,
        record {
          code_short = omega (
            arith,
            length-trim_nul (from_utf8_lossy code_bytes),
            length-from_utf8_lossy code_bytes,
          );
          volunit_fits = read_u16-lt body (p + 6) h;
          decimal_point_fits = byte-IsByte body (p + 20) h;
        },
      )

  security_step_ends :
      (body : Bytes) (p : ℕ) → length body < p + 29 → security_step fl decode_gbk body p ≡ ok none
  unfolding security_step
  security_step_ends body p h = rw (lt→ltb _ _ h) refl

  -- On any bytes, whatever the GBK decoder does: a body without a count is refused. Else the parser
  -- neither fails nor panics; it returns exactly as many securities as are declared and as fit at 29
  -- bytes each, whichever is less, with codes of at most six characters.
  parse_security_list_valid :
      (body : Bytes)
      → All IsByte body
      → (length body < 2 → parse_security_list fl decode_gbk body ≡ err response_length_mismatch)
        × (2 ≤ length body
            → (infos : List (SecurityInfo fl decode_gbk)) × (parse_security_list fl decode_gbk body
                ≡ ok infos)
              × All IsInfo infos
              × (length infos ≡ min (read_u16 body 0) ((length body - 2) / 29)))
  unfolding parse_security_list
  parse_security_list_valid body h = (
    λ short. rw (lt→ltb _ _ short) refl,
    λ full.
        let (xs, e, all, (few, inside, ends)) =
          collect_checked-Fills IsInfo 29 (length body) (security_step fl decode_gbk body)
            (security_step_reads body h) (security_step_ends body) (read_u16 body 0) 2 in
        (xs, rw (le→ltb _ _ full) e, all, ground (arith, few, inside, ends)),
  )

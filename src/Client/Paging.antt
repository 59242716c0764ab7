-- ===== src/Client/Paging.antt =====
-- The loops of src/net/client.rs and src/net/utils.rs that ask for page after page: bars older and
-- older, and the chunks of a block file. What one page comes to is an argument of the loop, as the
-- method that asks for it is a callback or a method of its own.
pub mod History
pub mod Chunks
use tdxrs.Base.{
  ℕ, zero, suc, ◌+◌, ◌-◌, ◌%◌, ◌^◌, Bool, true, false, List, [], ◌∷◌, ◌++◌, if◌then◌else◌, ltb,
  ◌==◌, length, min,
}
use tdxrs.Bytes.{Bytes}
use tdxrs.Context.{max_kline_count}
use tdxrs.Io.{Io, ◌>>=◌, return}

module _ {S A : Type 0} where
  -- What a round does with the bars that came, `next` being the next round. `fetched` is a `u16`.
  unfoldable pub add_page : (ℕ → List A → Io S (List A)) → ℕ → List A → List A → Io S (List A)
  add_page next batch all_bars [] = return all_bars
  add_page next batch all_bars (b ∷ bs) =
      let fetched = length (b ∷ bs) % 2 ^ 16 in
      elim (ltb fetched batch) [
        | true ↦ return ((b ∷ bs) ++ all_bars)
        | false ↦ next fetched ((b ∷ bs) ++ all_bars)
      ]

  -- `get_security_bars_all` and `get_index_bars_all`: the loop while `remaining > 0`. The pages come
  -- from the newest to the oldest and are put in front.
  unfoldable pub pages_loop : ℕ → (ℕ → ℕ → Io S (List A)) → ℕ → ℕ → List A → Io S (List A)
  unfolding add_page
  pages_loop zero fetch offset remaining all_bars s = return all_bars s
  pages_loop (suc fuel) fetch offset zero all_bars s = return all_bars s
  pages_loop (suc fuel) fetch offset (suc r) all_bars s =
      let batch = min (suc r) max_kline_count in
      let next = λ (fetched : ℕ). pages_loop fuel fetch (offset + fetched) (suc r - fetched) in
      (fetch offset batch >>= add_page next batch all_bars) s

  -- A round that goes on has fetched at least one bar, so `count` rounds are enough.
  unfoldable pub get_bars_all : (ℕ → ℕ → Io S (List A)) → ℕ → Io S (List A)
  unfolding pages_loop
  get_bars_all fetch count = pages_loop count fetch 0 count []

module _ {S : Type 0} where
  -- `get_and_parse_block_info`: the loop while `offset < meta.size`, in chunks of 0x7530 bytes.
  unfoldable pub chunks_loop : ℕ → (ℕ → ℕ → Io S Bytes) → ℕ → ℕ → Bytes → Io S Bytes
  chunks_loop zero get size offset all_data s = return all_data s
  chunks_loop (suc fuel) get size offset all_data s = elim (ltb offset size) [
    | true ↦
        let read_size = min 30000 (size - offset) in
        (get offset read_size >>= λ chunk.
        chunks_loop fuel get size (offset + read_size) (all_data ++ chunk))
          s
    | false ↦ return all_data s
  ]

  -- Every chunk has at least one byte, so `size` rounds are enough.
  unfoldable pub get_all_chunks : (ℕ → ℕ → Io S Bytes) → ℕ → Io S Bytes
  unfolding chunks_loop
  get_all_chunks get size = chunks_loop size get size 0 []

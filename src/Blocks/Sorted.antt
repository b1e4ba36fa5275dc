-- ===== src/Blocks/Sorted.antt =====
-- core/cache_block.py: the sort of `to_kv_dict` on the blocks of `from_kv_dict`.
use kv_cache_tier_persistenc.Prelude.{ℕ, zero, suc, ◌≡◌, refl, arith, ◌∷◌}
use kv_cache_tier_persistenc.Tensor.{KvData}
use kv_cache_tier_persistenc.Blocks.{Arrays, insert_by_index, sort_by_index, block_at, blocks_from}

module _ (a : Arrays) (kv : KvData) (block_size total : ℕ) where
  insert_by_index-blocks_from :
      (i n : ℕ)
      → insert_by_index
          (block_at a kv block_size total i)
          (blocks_from a kv block_size total (suc i) n)
        ≡ block_at a kv block_size total i ∷ blocks_from a kv block_size total (suc i) n
  unfolding insert_by_index blocks_from block_at
  insert_by_index-blocks_from i zero = refl
  insert_by_index-blocks_from i (suc n) = ground arith

  pub sort_by_index-blocks_from :
      (i n : ℕ)
      → sort_by_index (blocks_from a kv block_size total i n)
        ≡ blocks_from a kv block_size total i n
  unfolding sort_by_index blocks_from
  sort_by_index-blocks_from i zero = refl
  sort_by_index-blocks_from i (suc n) =
      rw (sort_by_index-blocks_from (suc i) n) (insert_by_index-blocks_from i n)

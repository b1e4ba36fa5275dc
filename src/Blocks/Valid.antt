-- ===== src/Blocks/Valid.antt =====
-- core/cache_block.py, `validate`, on tables that `from_kv_dict` makes.
use kv_cache_tier_persistenc.Prelude.{
  ℕ, zero, suc, ◌+◌, ◌-◌, ◌*◌, ◌/◌, ◌≤◌, ◌<◌, min, ◌≡◌, refl, true, [], ◌∷◌, arith, length, some,
  sym,
}
use kv_cache_tier_persistenc.Result.{ok}
use kv_cache_tier_persistenc.Config.{ModelConfig}
use kv_cache_tier_persistenc.Tensor.{Tensor, KvData, layer}
use kv_cache_tier_persistenc.Blocks.{
  Arrays, slice_layers, block_at, blocks_from, validate, validate_layers, CacheBlockTable,
  from_kv_dict,
}
use kv_cache_tier_persistenc.Blocks.Pieces.{IsArrays, Covers, Covers-blocks}
use kv_cache_tier_persistenc.Blocks.RoundTrip.{IsKvData, from_kv_dict-blocks_from}
use kv_cache_tier_persistenc.TensorUtils.{validate_kv_cache, check_layers}

module _ (a : Arrays) (laws : IsArrays a) (c : ModelConfig) (total : ℕ) where
  length-slice_layers : (d : KvData) (i j : ℕ) → length (slice_layers a d i j) ≡ length d
  unfolding slice_layers
  length-slice_layers [] i j = refl
  length-slice_layers ((l, (k, v)) ∷ d) i j = omega (arith, length-slice_layers d i j)

  validate_layers-slice_layers :
      (d : KvData) (i j : ℕ)
      → IsKvData total d
      → i ≤ j
      → j ≤ total
      → check_layers c d ≡ true
      → validate_layers c (j - i) (slice_layers a d i j) ≡ true
  unfolding validate_layers slice_layers check_layers
  validate_layers-slice_layers [] i j h le top x = refl
  validate_layers-slice_layers ((l, (k, v)) ∷ d) i j h le top x = ground (
    arith,
    laws.slice-dtype k i j,
    laws.slice-dtype v i j,
    laws.slice-heads k i j,
    laws.slice-head_dim k i j,
    laws.slice-tokens k i j,
    validate_layers-slice_layers d i j h.3 le top,
  )

  validate-blocks_from :
      (kv : KvData) (block_size j n start : ℕ)
      → IsKvData total kv
      → validate_kv_cache c kv ≡ true
      → start ≡ j * block_size
      → Covers block_size total start n
      → validate c (blocks_from a kv block_size total j n) ≡ true
  unfolding validate blocks_from block_at validate_kv_cache
  validate-blocks_from kv block_size j zero start h x e cov = refl
  validate-blocks_from kv block_size j (suc n) start h x e cov = rw (sym e) (
      ground (
        arith,
        length-slice_layers kv start (min (start + block_size) total),
        validate_layers-slice_layers kv start (min (start + block_size) total) h
            (omega (arith, cov.0)) (omega arith),
        validate-blocks_from kv block_size (suc j) n (start + block_size) h x (omega (arith, e))
            cov.1,
      ))

  -- The table that `from_kv_dict` makes, with a positive block size, of data that
  -- `validate_kv_cache` accepts, whose layers stand once each with arrays of the same number of
  -- tokens, and which have a layer 0, is accepted by `validate`.
  pub validate-from_kv_dict :
      (kv : KvData) (k v : Tensor) (block_size : ℕ)
      → IsKvData total kv
      → layer kv 0 ≡ some (k, v)
      → 0 < block_size
      → validate_kv_cache c kv ≡ true
      → (blocks : CacheBlockTable) × (from_kv_dict a kv block_size ≡ ok blocks)
        × (validate c blocks ≡ true)
  validate-from_kv_dict kv k v block_size h l pos x = (
    blocks_from a kv block_size total 0 ((total + block_size - 1) / block_size),
    from_kv_dict-blocks_from a laws block_size total kv k v h l pos,
    validate-blocks_from kv block_size 0 ((total + block_size - 1) / block_size) 0 h x (omega arith)
        (Covers-blocks block_size total pos),
  )

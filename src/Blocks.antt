-- ===== src/Blocks.antt =====
-- core/cache_block.py: `CacheBlock` and `CacheBlockTable`, with numpy's slices and `concatenate` along
-- the token axis as a parameter (`Arrays`).
pub mod Sorted
pub mod Pieces
pub mod RoundTrip
pub mod Valid
use kv_cache_tier_persistenc.Prelude.{
  ℕ, zero, suc, ◌+◌, ◌-◌, ◌*◌, ◌/◌, min, Bool, true, false, ◌&&◌, ◌||◌, Option, none, some, List,
  [], ◌∷◌, ◌++◌, map, str_eq, leb, ◌==◌, if◌then◌else◌, length,
}
use kv_cache_tier_persistenc.Result.{Result, ok, raise, key_error, zero_division, ◌>>=◌}
use kv_cache_tier_persistenc.Config.{ModelConfig}
use kv_cache_tier_persistenc.Tensor.{Tensor, Dtype, float16, float32, KvData, layer, token_count}

-- What the code calls of numpy: `t[:, start:end, :].copy()`, `np.concatenate(ts, axis=1)`, `t.nbytes`.
pub record Arrays : Type 0 where
  pub slice : Tensor → ℕ → ℕ → Tensor
  pub concatenate : List Tensor → Result Tensor
  pub nbytes : Tensor → ℕ

pub record CacheBlock : Type 0 where
  pub block_id : ℕ
  pub layer_data : KvData
  pub token_count : ℕ
  pub block_index : ℕ

-- `CacheBlockTable.blocks`
abbrev pub CacheBlockTable : Type 0
CacheBlockTable = List CacheBlock

unfoldable pub add_block : CacheBlockTable → CacheBlock → CacheBlockTable
add_block blocks b = blocks ++ b ∷ []

unfoldable pub total_tokens : CacheBlockTable → ℕ
total_tokens [] = 0
total_tokens (b ∷ blocks) = b.token_count + total_tokens blocks

-- `sorted(self.blocks, key=lambda b: b.block_index)`: a stable sort, here by insertion.
unfoldable pub insert_by_index : CacheBlock → CacheBlockTable → CacheBlockTable
insert_by_index b [] = b ∷ []
insert_by_index b (c ∷ blocks) =
    if leb b.block_index c.block_index then b ∷ c ∷ blocks else c ∷ insert_by_index b blocks

unfoldable pub sort_by_index : CacheBlockTable → CacheBlockTable
unfolding insert_by_index
sort_by_index [] = []
sort_by_index (b ∷ blocks) = insert_by_index b (sort_by_index blocks)

abbrev pub layers_of : KvData → List ℕ
layers_of = map (λ e. e.0)

module _ (a : Arrays) where
  unfoldable pub layers_size : KvData → ℕ
  layers_size [] = 0
  layers_size ((i, (k, v)) ∷ d) = a.nbytes k + a.nbytes v + layers_size d

  unfoldable pub total_size_bytes : CacheBlockTable → ℕ
  unfolding layers_size
  total_size_bytes [] = 0
  total_size_bytes (b ∷ blocks) = layers_size b.layer_data + total_size_bytes blocks

  -- the inner loop of `from_kv_dict`
  unfoldable pub slice_layers : KvData → ℕ → ℕ → KvData
  slice_layers [] start end = []
  slice_layers ((i, (k, v)) ∷ d) start end =
      (i, (a.slice k start end, a.slice v start end)) ∷ slice_layers d start end

  unfoldable pub block_at : KvData → ℕ → ℕ → ℕ → CacheBlock
  block_at kv block_size total i =
      let start = i * block_size in
      let end = min (start + block_size) total in
      record {
        block_id = i;
        layer_data = slice_layers kv start end;
        token_count = end - start;
        block_index = i;
      }

  -- the outer loop, from block `i` on, with the number of blocks that are left
  unfoldable pub blocks_from : KvData → ℕ → ℕ → ℕ → ℕ → CacheBlockTable
  unfolding block_at slice_layers
  blocks_from kv block_size total i zero = []
  blocks_from kv block_size total i (suc n) =
      block_at kv block_size total i ∷ blocks_from kv block_size total (suc i) n

  unfoldable pub split : KvData → ℕ → ℕ → Result CacheBlockTable
  split kv block_size total =
      if block_size == 0
      then raise zero_division
      else ok (blocks_from kv block_size total 0 ((total + block_size - 1) / block_size))

  unfoldable pub from_kv_dict : KvData → ℕ → Result CacheBlockTable
  unfolding split blocks_from
  from_kv_dict [] block_size = ok []
  from_kv_dict (e ∷ d) block_size = token_count (e ∷ d) >>= split (e ∷ d) block_size

  -- one pass over the blocks for a layer: `k_list` and `v_list`
  unfoldable pub gather : ℕ → CacheBlockTable → Result (List Tensor × List Tensor)
  gather i [] = ok ([], [])
  gather i (b ∷ blocks) = elim (layer b.layer_data i) [
    | none ↦ raise key_error
    | some (k, v) ↦ gather i blocks >>= λ r. ok (k ∷ r.0, v ∷ r.1)
  ]

  unfoldable pub merge_layer : ℕ → CacheBlockTable → Result (Tensor × Tensor)
  unfolding gather
  merge_layer i blocks =
      gather i blocks >>= λ r. a.concatenate r.0 >>= λ k. a.concatenate r.1 >>= λ v. ok (k, v)

  unfoldable pub merge_layers : List ℕ → CacheBlockTable → Result KvData
  unfolding merge_layer
  merge_layers [] blocks = ok []
  merge_layers (i ∷ layers) blocks =
      merge_layer i blocks >>= λ kv. merge_layers layers blocks >>= λ rest. ok ((i, kv) ∷ rest)

  unfoldable pub merge_ordered : CacheBlockTable → Result KvData
  merge_ordered [] = ok []
  merge_ordered (b ∷ blocks) = merge_layers (layers_of b.layer_data) (b ∷ blocks)

  unfoldable pub to_kv_dict : CacheBlockTable → Result KvData
  unfolding sort_by_index merge_layers merge_ordered
  to_kv_dict blocks = merge_ordered (sort_by_index blocks)

abbrev pub dtype_eq : Dtype → Dtype → Bool
dtype_eq float16 float16 = true
dtype_eq float32 float32 = true
dtype_eq _ _ = false

abbrev pub expected_dtype : ModelConfig → Dtype
expected_dtype c = if str_eq c.dtype "float16" || str_eq c.dtype "fp16" then float16 else float32

unfoldable pub validate_layers : ModelConfig → ℕ → KvData → Bool
validate_layers c tokens [] = true
validate_layers c tokens ((i, (k, v)) ∷ d) =
    dtype_eq k.dtype (expected_dtype c)
    && dtype_eq v.dtype (expected_dtype c)
    && k.heads == c.num_heads
    && k.head_dim == c.head_dim
    && k.tokens == tokens
    && validate_layers c tokens d

unfoldable pub validate : ModelConfig → CacheBlockTable → Bool
unfolding validate_layers
validate c [] = true
validate c (b ∷ blocks) =
    length b.layer_data == c.num_layers
    && validate_layers c b.token_count b.layer_data
    && validate c blocks

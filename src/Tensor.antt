-- ===== src/Tensor.antt =====
-- The KV data that the package moves: for each layer a key and a value tensor of shape
-- (heads, tokens, head_dim), numpy arrays in C order. A cell is a row of `head_dim` elements, held as its bytes.
use kv_cache_tier_persistenc.Prelude.{ℕ, ◌==◌, Option, none, some, List, [], ◌∷◌, if◌then◌else◌}
use kv_cache_tier_persistenc.Result.{Result, ok, raise, key_error}

-- np.float16 and np.float32
pub data Dtype : Type 0 where
  float16 float32 : Dtype

pub record Tensor : Type 0 where
  pub dtype : Dtype
  pub heads : ℕ
  pub tokens : ℕ
  pub head_dim : ℕ
  -- heads, then tokens, then the bytes of a row
  pub cells : List (List (List ℕ))

-- Dict[int, Tuple[np.ndarray, np.ndarray]]
abbrev pub KvData : Type 0
KvData = List (ℕ × (Tensor × Tensor))

unfoldable pub layer : KvData → ℕ → Option (Tensor × Tensor)
layer [] i = none
layer ((j, kv) ∷ d) i = if j == i then some kv else layer d i

abbrev pub token_count_at : Option (Tensor × Tensor) → Result ℕ
token_count_at none = raise key_error
token_count_at (some (k, v)) = ok k.tokens

-- `kv_data[0][0].shape[1] if kv_data else 0`
unfoldable pub token_count : KvData → Result ℕ
unfolding layer
token_count [] = ok 0
token_count (e ∷ d) = token_count_at (layer (e ∷ d) 0)

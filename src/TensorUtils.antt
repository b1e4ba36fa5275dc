-- ===== src/TensorUtils.antt =====
-- utils/tensor_utils.py: the KV data that are generated, their check, their size and their quantization.
-- The calls of numpy are parameters; the random generator of the name draws nothing, it fills with zeros.
pub mod Generated
pub mod Compare
use kv_cache_tier_persistenc.Prelude.{
  ℕ, zero, suc, ◌+◌, ◌-◌, String, Bool, true, false, ◌&&◌, List, [], ◌∷◌, ◌==◌, length, str_eq,
  if◌then◌else◌,
}
use kv_cache_tier_persistenc.Float.{Floats}
use kv_cache_tier_persistenc.Config.{ModelConfig}
use kv_cache_tier_persistenc.Tensor.{Tensor, Dtype, KvData}
use kv_cache_tier_persistenc.Blocks.{dtype_eq, expected_dtype}

-- the loop of `generate_random_kv_cache` from a layer on; `zeros` is `np.zeros((heads, tokens,
-- head_dim), dtype)`
unfoldable pub generate_from : (Dtype → ℕ → ℕ → ℕ → Tensor) → ModelConfig → ℕ → ℕ → ℕ → KvData
generate_from zeros c token_count i zero = []
generate_from zeros c token_count i (suc n) =
    let t = zeros (expected_dtype c) c.num_heads token_count c.head_dim in
    (i, (t, t)) ∷ generate_from zeros c token_count (suc i) n

unfoldable pub generate_random_kv_cache : (Dtype → ℕ → ℕ → ℕ → Tensor) → ModelConfig → ℕ → KvData
unfolding generate_from
generate_random_kv_cache zeros c token_count = generate_from zeros c token_count 0 c.num_layers

-- `k.shape != v.shape`
abbrev pub shape_eq : Tensor → Tensor → Bool
shape_eq k v = k.heads == v.heads && k.tokens == v.tokens && k.head_dim == v.head_dim

unfoldable pub check_layers : ModelConfig → KvData → Bool
check_layers c [] = true
check_layers c ((i, (k, v)) ∷ d) =
    dtype_eq k.dtype (expected_dtype c)
    && dtype_eq v.dtype (expected_dtype c)
    && shape_eq k v
    && k.heads == c.num_heads
    && k.head_dim == c.head_dim
    && check_layers c d

-- Data of the type are a dict of arrays with three axes.
unfoldable pub validate_kv_cache : ModelConfig → KvData → Bool
unfolding check_layers
validate_kv_cache c kv = length kv == c.num_layers && check_layers c kv

unfoldable pub kv_cache_size_bytes : (Tensor → ℕ) → KvData → ℕ
kv_cache_size_bytes nbytes [] = 0
kv_cache_size_bytes nbytes ((i, (k, v)) ∷ d) = nbytes k + nbytes v + kv_cache_size_bytes nbytes d

-- What `quantize_kv_cache` calls of numpy: the greatest magnitude of an array, the array times a number,
-- rounded and clipped to -127 and 127 as int8, and `astype`; `A` are arrays of any of the types.
pub record Quantizer (F A : Type 0) : Type 0 where
  pub abs_max : Tensor → F
  pub scaled_int8 : Tensor → F → A
  pub astype : String → Tensor → A

-- `dtype_map.get(target_dtype, np.float16)`
abbrev pub target_of : String → String
target_of target =
    if str_eq target "float32"
    then "float32"
    else if str_eq target "int8"
    then "int8"
    else "float16"

module _ {F A : Type 0} (f : Floats F) (z : Quantizer F A) (target : String) where
  -- 127.0 / (k_max + 1e-9), and the product with it
  unfoldable pub quantized : Tensor → A
  quantized t =
      if str_eq target "int8"
      then z.scaled_int8 t (f.div (f.literal 127 1) (f.add (z.abs_max t) (f.literal 1 1000000000)))
      else z.astype (target_of target) t

  unfoldable pub quantize_kv_cache : KvData → List (ℕ × (A × A))
  unfolding quantized
  quantize_kv_cache [] = []
  quantize_kv_cache ((i, (k, v)) ∷ d) = (i, (quantized k, quantized v)) ∷ quantize_kv_cache d

-- ===== src/TensorUtils/Generated.antt =====
-- utils/tensor_utils.py: the check of generated data.
use kv_cache_tier_persistenc.Prelude.{ℕ, zero, suc, ◌≡◌, refl, true, arith, length}
use kv_cache_tier_persistenc.Config.{ModelConfig}
use kv_cache_tier_persistenc.Tensor.{Tensor, Dtype, float16, float32}
use kv_cache_tier_persistenc.Blocks.{dtype_eq, expected_dtype}
use kv_cache_tier_persistenc.TensorUtils.{
  generate_from, generate_random_kv_cache, check_layers, validate_kv_cache,
}

-- `np.zeros` gives an array of the shape and the type that it is asked for.
pub record IsZeros (zeros : Dtype → ℕ → ℕ → ℕ → Tensor) : Type 0 where
  pub dtype : (d : Dtype) (heads tokens head_dim : ℕ) → (zeros d heads tokens head_dim).dtype ≡ d
  pub heads :
      (d : Dtype) (heads tokens head_dim : ℕ) → (zeros d heads tokens head_dim).heads ≡ heads
  pub tokens :
      (d : Dtype) (heads tokens head_dim : ℕ) → (zeros d heads tokens head_dim).tokens ≡ tokens
  pub head_dim :
      (d : Dtype) (heads tokens head_dim : ℕ) → (zeros d heads tokens head_dim).head_dim ≡ head_dim

dtype_eq_refl : (d : Dtype) → dtype_eq d d ≡ true
dtype_eq_refl float16 = refl
dtype_eq_refl float32 = refl

module _ (zeros : Dtype → ℕ → ℕ → ℕ → Tensor) (laws : IsZeros zeros) (c : ModelConfig)
    (tokens : ℕ) where
  length-generate_from : (i n : ℕ) → length (generate_from zeros c tokens i n) ≡ n
  unfolding generate_from
  length-generate_from i zero = refl
  length-generate_from i (suc n) = omega (arith, length-generate_from (suc i) n)

  check_layers-generate_from : (i n : ℕ) → check_layers c (generate_from zeros c tokens i n) ≡ true
  unfolding generate_from check_layers
  check_layers-generate_from i zero = refl
  check_layers-generate_from i (suc n) = ground (
    arith,
    dtype_eq_refl (expected_dtype c),
    laws.dtype (expected_dtype c) c.num_heads tokens c.head_dim,
    laws.heads (expected_dtype c) c.num_heads tokens c.head_dim,
    laws.head_dim (expected_dtype c) c.num_heads tokens c.head_dim,
    check_layers-generate_from (suc i) n,
  )

  -- Where `np.zeros` gives what it is asked for, `validate_kv_cache` accepts what
  -- `generate_random_kv_cache` makes for the same configuration.
  pub validate-generate : validate_kv_cache c (generate_random_kv_cache zeros c tokens) ≡ true
  unfolding validate_kv_cache generate_random_kv_cache
  validate-generate =
      ground (arith, length-generate_from 0 c.num_layers, check_layers-generate_from 0 c.num_layers)

-- ===== src/TensorUtils/Compare.antt =====
-- utils/tensor_utils.py: `kv_caches_equal`. `np.allclose` with the tolerance is a parameter.
use kv_cache_tier_persistenc.Dict.{is_some}
use kv_cache_tier_persistenc.Prelude.{ℕ, Bool, true, false, ◌&&◌, Option, none, some, [], ◌∷◌}
use kv_cache_tier_persistenc.Tensor.{Tensor, KvData, layer}
use kv_cache_tier_persistenc.TensorUtils.{shape_eq}

-- a loop over the items that returns False at the first that fails
unfoldable pub all_layers : (ℕ → Tensor × Tensor → Bool) → KvData → Bool
all_layers test [] = true
all_layers test ((i, p) ∷ d) = test i p && all_layers test d

abbrev pub has_layer : KvData → ℕ → Bool
has_layer d i = is_some (layer d i)

-- the body of the loop, at the layer of the other dict, which is there
abbrev pub pair_close : (Tensor → Tensor → Bool) → Tensor × Tensor → Option (Tensor × Tensor) → Bool
pair_close allclose p none = false
pair_close allclose (k, v) (some (k', v')) =
    shape_eq k k' && shape_eq v v' && allclose k k' && allclose v v'

-- `a.keys() != b.keys()` compares them as sets
unfoldable pub kv_caches_equal : (Tensor → Tensor → Bool) → KvData → KvData → Bool
unfolding all_layers
kv_caches_equal allclose a b =
    all_layers (λ i p. has_layer b i) a
    && all_layers (λ i p. has_layer a i) b
    && all_layers (λ i p. pair_close allclose p (layer b i)) a

-- What two entries of the same layer have to be.
abbrev pub agree :
    (Tensor → Tensor → Bool) → Option (Tensor × Tensor) → Option (Tensor × Tensor) → Bool
agree allclose none none = true
agree allclose none (some q) = false
agree allclose (some p) o = pair_close allclose p o

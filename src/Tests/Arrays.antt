-- ===== src/Tests/Arrays.antt =====
-- Arrays as lists of rows: an instance of what the block table relies on of numpy, and instances of
-- what is proved of the table and of the tensor utilities.
use kv_cache_tier_persistenc.Prelude.{
  ℕ, zero, suc, ◌+◌, ◌-◌, ◌*◌, ◌≤◌, min, ◌≡◌, refl, sym, ap, Bool, true, ◌==◌, some, List, [], ◌∷◌,
  ◌++◌, arith, length, take, drop, drop-sum,
}
use kv_cache_tier_persistenc.Result.{Result, ok, raise, value_error}
use kv_cache_tier_persistenc.Config.{ModelConfig}
use kv_cache_tier_persistenc.Tensor.{Tensor, Dtype, float16, KvData, layer}
use kv_cache_tier_persistenc.Blocks.{
  Arrays, CacheBlockTable, from_kv_dict, to_kv_dict, total_tokens, validate,
}
use kv_cache_tier_persistenc.Blocks.Pieces.{IsArrays, HasRows}
use kv_cache_tier_persistenc.Blocks.RoundTrip.{IsKvData, from_kv_dict-to_kv_dict}
use kv_cache_tier_persistenc.Blocks.Valid.{validate-from_kv_dict}
use kv_cache_tier_persistenc.TensorUtils.{generate_random_kv_cache, validate_kv_cache}
use kv_cache_tier_persistenc.TensorUtils.Compare.{kv_caches_equal}
use kv_cache_tier_persistenc.TensorUtils.Generated.{IsZeros, validate-generate}

abbrev Heads : Type 0
Heads = List (List (List ℕ))

abbrev cut : ℕ → ℕ → Heads → Heads
cut i j [] = []
cut i j (rows ∷ heads) = take (j - i) (drop i rows) ∷ cut i j heads

abbrev glue : Heads → Heads → Heads
glue (rows ∷ heads) (more ∷ others) = (rows ++ more) ∷ glue heads others
glue _ _ = []

abbrev slice : Tensor → ℕ → ℕ → Tensor
slice t i j = record t { tokens = min j t.tokens - i; cells = cut i j t.cells }

abbrev glue_tensors : Tensor → Tensor → Tensor
glue_tensors t u = record t { tokens = t.tokens + u.tokens; cells = glue t.cells u.cells }

abbrev concatenate_to : Tensor → List Tensor → Result Tensor
concatenate_to t [] = ok t
concatenate_to t (u ∷ ts) = concatenate_to (glue_tensors t u) ts

abbrev concatenate : List Tensor → Result Tensor
concatenate [] = raise value_error
concatenate (t ∷ ts) = concatenate_to t ts

abbrev numpy : Arrays
numpy = record {
  slice = slice;
  concatenate = concatenate;
  nbytes = λ t. 2 * (t.heads * t.tokens * t.head_dim);
}

take-all : {A : Type 0} (n : ℕ) (l : List A) → length l ≡ n → take n l ≡ l
take-all zero [] h = refl
take-all zero (x ∷ l) h = absurd (cc)
take-all (suc n) [] h = refl
take-all (suc n) (x ∷ l) h = ap (λ r. x ∷ r) (take-all n l (omega (arith, h)))

take-sum :
    {A : Type 0} (m n s : ℕ) (l : List A) → s ≡ m + n → take m l ++ take n (drop m l) ≡ take s l
take-sum zero n s l e = ap (λ x. take x l) (omega (arith, e))
take-sum (suc m) n zero l e = absurd (omega (arith, e))
take-sum (suc m) zero (suc s) [] e = refl
take-sum (suc m) (suc n) (suc s) [] e = refl
take-sum (suc m) n (suc s) (x ∷ l) e = ap (λ r. x ∷ r) (take-sum m n s l (omega (arith, e)))

cut-whole : (n : ℕ) (heads : Heads) → HasRows n heads → cut 0 n heads ≡ heads
cut-whole n [] h = refl
cut-whole n (rows ∷ heads) h =
    ground (arith, take-all (n - 0) rows (omega (arith, h.0)), cut-whole n heads h.1)

glue-cut :
    (i j k : ℕ) (heads : Heads)
    → i ≤ j
    → j ≤ k
    → glue (cut i j heads) (cut j k heads) ≡ cut i k heads
glue-cut i j k [] a b = refl
glue-cut i j k (rows ∷ heads) a b = ground (
  arith,
  sym (drop-sum i (j - i) j rows (omega arith)),
  take-sum (j - i) (k - j) (k - i) (drop i rows) (omega arith),
  glue-cut i j k heads a b,
)

numpy-IsArrays : IsArrays numpy
numpy-IsArrays = record {
  whole = λ t h. ground (arith, cut-whole t.tokens t.cells h);
  single = λ t. refl;
  join = λ t i j k ts a b top.
      ap (λ u. concatenate_to u ts) (ground (arith, glue-cut i j k t.cells a b));
  slice-tokens = λ t i j a b. omega arith;
  slice-dtype = λ t i j. refl;
  slice-heads = λ t i j. refl;
  slice-head_dim = λ t i j. refl;
}

-- a model of two layers with one head, and five tokens
abbrev small : ModelConfig
small = record { num_layers = 2; num_heads = 1; head_dim = 1; block_size = 2; dtype = "float16" }

abbrev five : ℕ → Tensor
five n = record {
  dtype = float16;
  heads = 1;
  tokens = 5;
  head_dim = 1;
  cells = ((n ∷ []) ∷ ((n + 1) ∷ []) ∷ ((n + 2) ∷ []) ∷ ((n + 3) ∷ []) ∷ ((n + 4) ∷ []) ∷ []) ∷ [];
}

abbrev two_layers : KvData
two_layers = (0, (five 10, five 20)) ∷ (1, (five 30, five 40)) ∷ []

two_layers-IsKvData : IsKvData 5 two_layers
unfolding layer
two_layers-IsKvData = (
  refl,
  ((refl, tt), refl),
  ((refl, tt), refl),
  (refl, ((refl, tt), refl), ((refl, tt), refl), tt),
)

two_layers_first : layer two_layers 0 ≡ some (five 10, five 20)
unfolding layer
two_layers_first = refl

two_layers_check : validate_kv_cache small two_layers ≡ true
unfolding validate_kv_cache
two_layers_check = refl

from_kv_dict-to_kv_dict_example :
    (blocks : CacheBlockTable) × (from_kv_dict numpy two_layers 2 ≡ ok blocks)
    × (to_kv_dict numpy blocks ≡ ok two_layers)
    × (total_tokens blocks ≡ 5)
from_kv_dict-to_kv_dict_example =
    from_kv_dict-to_kv_dict numpy numpy-IsArrays 2 5 two_layers (five 10) (five 20)
      two_layers-IsKvData two_layers_first (omega arith) (omega arith)

validate-from_kv_dict_example :
    (blocks : CacheBlockTable) × (from_kv_dict numpy two_layers 2 ≡ ok blocks)
    × (validate small blocks ≡ true)
validate-from_kv_dict_example =
    validate-from_kv_dict numpy numpy-IsArrays small 5 two_layers (five 10) (five 20) 2
      two_layers-IsKvData two_layers_first (omega arith) two_layers_check

abbrev zeros : Dtype → ℕ → ℕ → ℕ → Tensor
zeros d heads tokens head_dim = record {
  dtype = d;
  heads = heads;
  tokens = tokens;
  head_dim = head_dim;
  cells = [];
}

zeros-IsZeros : IsZeros zeros
zeros-IsZeros = record {
  dtype = λ d h t n. refl;
  heads = λ d h t n. refl;
  tokens = λ d h t n. refl;
  head_dim = λ d h t n. refl;
}

-- an instance of the check, and of the comparison: the same layers in another order
generated_passes : validate_kv_cache small (generate_random_kv_cache zeros small 5) ≡ true
generated_passes = validate-generate zeros zeros-IsZeros small 5

abbrev swapped : KvData
swapped = (1, (five 20, five 20)) ∷ (0, (five 10, five 10)) ∷ []

abbrev straight : KvData
straight = (0, (five 10, five 10)) ∷ (1, (five 20, five 20)) ∷ []

-- close where there are as many heads
abbrev same_heads : Tensor → Tensor → Bool
same_heads t u = length t.cells == length u.cells

order_is_free : kv_caches_equal same_heads straight swapped ≡ true
unfolding kv_caches_equal layer
order_is_free = refl

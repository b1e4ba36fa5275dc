-- ===== src/Blocks/Pieces.antt =====
-- core/cache_block.py: arrays cut along the token axis, and what the code relies on of numpy.
use native.Mathlib.Nat.{div-add-mod', mod-lt}
use kv_cache_tier_persistenc.Prelude.{
  ℕ, zero, suc, ◌+◌, ◌-◌, ◌*◌, ◌/◌, ◌≤◌, ◌<◌, min, ◌≡◌, List, [], ◌∷◌, arith, length,
}
use kv_cache_tier_persistenc.Result.{ok}
use kv_cache_tier_persistenc.Tensor.{Tensor}
use kv_cache_tier_persistenc.Blocks.{Arrays}

-- Each head has a row for each token.
abbrev pub HasRows : ℕ → List (List (List ℕ)) → Type 0
HasRows n [] = Unit
HasRows n (rows ∷ heads) = (length rows ≡ n) × HasRows n heads

abbrev pub IsTensor : Tensor → Type 0
IsTensor t = HasRows t.tokens t.cells

-- A slice over all tokens is the array; an array alone is its own concatenation; two slices that
-- meet are one slice; a slice has the shape that its bounds say.
pub record IsArrays (a : Arrays) : Type 0 where
  pub whole : (t : Tensor) → IsTensor t → a.slice t 0 t.tokens ≡ t
  pub single : (t : Tensor) → a.concatenate (t ∷ []) ≡ ok t
  pub join :
      (t : Tensor) (i j k : ℕ) (ts : List Tensor)
      → i ≤ j
      → j ≤ k
      → k ≤ t.tokens
      → a.concatenate (a.slice t i j ∷ a.slice t j k ∷ ts) ≡ a.concatenate (a.slice t i k ∷ ts)
  pub slice-tokens : (t : Tensor) (i j : ℕ) → i ≤ j → j ≤ t.tokens → (a.slice t i j).tokens ≡ j - i
  pub slice-dtype : (t : Tensor) (i j : ℕ) → (a.slice t i j).dtype ≡ t.dtype
  pub slice-heads : (t : Tensor) (i j : ℕ) → (a.slice t i j).heads ≡ t.heads
  pub slice-head_dim : (t : Tensor) (i j : ℕ) → (a.slice t i j).head_dim ≡ t.head_dim

-- `n` steps of the block size from `start` reach `total`, and no fewer do.
abbrev pub Covers : ℕ → ℕ → ℕ → ℕ → Type 0
Covers block_size total start zero = total ≤ start
Covers block_size total start (suc n) =
    (start < total) × Covers block_size total (start + block_size) n

Covers-of_bounds :
    (block_size total start n : ℕ)
    → total ≤ start + n * block_size
    → start + n * block_size < total + block_size
    → Covers block_size total start n
Covers-of_bounds block_size total start zero lo hi = omega arith
Covers-of_bounds block_size total start (suc n) lo hi = (
  omega arith,
  Covers-of_bounds block_size total (start + block_size) n (omega arith) (omega arith),
)

-- The number of blocks that `from_kv_dict` computes is the one that covers the tokens.
pub Covers-blocks :
    (block_size total : ℕ)
    → 0 < block_size
    → Covers block_size total 0 ((total + block_size - 1) / block_size)
Covers-blocks block_size total pos =
    let n = total + block_size - 1 in
    Covers-of_bounds block_size total 0 (n / block_size)
      (omega (arith, div-add-mod' n block_size, mod-lt n pos))
      (omega (arith, div-add-mod' n block_size, mod-lt n pos))

module _ (a : Arrays) (laws : IsArrays a) where
  -- The slices of the blocks from `start` on.
  abbrev pub pieces : Tensor → ℕ → ℕ → ℕ → ℕ → List Tensor
  pieces t block_size total start zero = []
  pieces t block_size total start (suc n) =
      a.slice t start (min (start + block_size) total)
      ∷ pieces t block_size total (start + block_size) n

  concatenate-rest :
      (t : Tensor) (block_size total start n : ℕ)
      → total ≡ t.tokens
      → Covers block_size total start n
      → a.concatenate (a.slice t 0 (min start total) ∷ pieces t block_size total start n)
        ≡ ok (a.slice t 0 total)
  concatenate-rest t block_size total start zero e c =
      ground (arith, laws.single (a.slice t 0 total))
  concatenate-rest t block_size total start (suc n) e c = ground (
    arith,
    laws.join t 0 start (min (start + block_size) total)
        (pieces t block_size total (start + block_size) n),
    concatenate-rest t block_size total (start + block_size) n e c.1,
  )

  -- The pieces of an array that has tokens are the array.
  pub concatenate-pieces :
      (t : Tensor) (block_size total n : ℕ)
      → IsTensor t
      → total ≡ t.tokens
      → 0 < total
      → Covers block_size total 0 n
      → a.concatenate (pieces t block_size total 0 n) ≡ ok t
  concatenate-pieces t block_size total zero h e pos c = absurd (none pos c)
    where
      none : {m : ℕ} → 0 < m → m ≤ 0 → ⊥
      none p q = omega arith
  concatenate-pieces t block_size total (suc n) h e pos c =
      ground (arith, laws.whole t h, concatenate-rest t block_size total (0 + block_size) n e c.1)

-- ===== src/Blocks/RoundTrip.antt =====
-- core/cache_block.py: `from_kv_dict` and then `to_kv_dict`.
use kv_cache_tier_persistenc.Prelude.{
  ℕ, zero, suc, ◌+◌, ◌-◌, ◌*◌, ◌/◌, ◌≤◌, ◌<◌, min, ◌≡◌, refl, sym, ap, ◌∙◌, none, some, List, [],
  ◌∷◌, arith,
}
use kv_cache_tier_persistenc.Result.{ok}
use kv_cache_tier_persistenc.Tensor.{Tensor, KvData, layer, token_count}
use kv_cache_tier_persistenc.Blocks.{
  Arrays, CacheBlock, CacheBlockTable, slice_layers, block_at, blocks_from, split, from_kv_dict,
  gather, merge_layer, merge_layers, merge_ordered, to_kv_dict, layers_of, total_tokens,
}
use kv_cache_tier_persistenc.Blocks.Sorted.{sort_by_index-blocks_from}
use kv_cache_tier_persistenc.Blocks.Pieces.{
  IsArrays, IsTensor, Covers, Covers-blocks, pieces, concatenate-pieces,
}

-- Every layer stands once, with arrays of `total` tokens.
abbrev pub IsKvData : ℕ → KvData → Type 0
IsKvData total [] = Unit
IsKvData total ((i, (k, v)) ∷ d) =
    (layer d i ≡ none)
    × (IsTensor k × (total ≡ k.tokens))
    × (IsTensor v × (total ≡ v.tokens))
    × IsKvData total d

-- The layers of `d` are layers of `kv`.
abbrev Within : KvData → KvData → Type 0
Within kv d = (i : ℕ) (p : Tensor × Tensor) → layer d i ≡ some p → layer kv i ≡ some p

Within-tail :
    (kv d : KvData) (i : ℕ) (p : Tensor × Tensor)
    → layer d i ≡ none
    → Within kv ((i, p) ∷ d)
    → Within kv d
unfolding layer
Within-tail kv d i p h w j q e = w j q (ground arith)

module _ (a : Arrays) (laws : IsArrays a) (block_size total : ℕ) where
  layer-slice_layers :
      (kv : KvData) (start end i : ℕ) (k v : Tensor)
      → layer kv i ≡ some (k, v)
      → layer (slice_layers a kv start end) i ≡ some (a.slice k start end, a.slice v start end)
  unfolding layer slice_layers
  layer-slice_layers [] start end i k v h = cc
  layer-slice_layers ((j, (k', v')) ∷ d) start end i k v h =
      ground (arith, layer-slice_layers d start end i k v)

  gather-cons :
      (i : ℕ) (b : CacheBlock) (blocks : CacheBlockTable) (k v : Tensor) (ks vs : List Tensor)
      → layer b.layer_data i ≡ some (k, v)
      → gather a i blocks ≡ ok (ks, vs)
      → gather a i (b ∷ blocks) ≡ ok (k ∷ ks, v ∷ vs)
  unfolding gather
  gather-cons i b blocks k v ks vs h g = rw (h, gather, g) refl

  gather-blocks_from :
      (kv : KvData) (i : ℕ) (k v : Tensor)
      → layer kv i ≡ some (k, v)
      → (j n start : ℕ) → start ≡ j * block_size
      → gather a i (blocks_from a kv block_size total j n)
        ≡ ok (pieces a laws k block_size total start n, pieces a laws v block_size total start n)
  unfolding blocks_from
  gather-blocks_from kv i k v h j zero start e = unfold gather in refl
  gather-blocks_from kv i k v h j (suc n) start e =
      gather-cons i (block_at a kv block_size total j) (blocks_from a kv block_size total (suc j) n)
        _ _ _ _
        (unfold block_at in
          rw (sym e) (layer-slice_layers kv start (min (start + block_size) total) i k v h))
        (gather-blocks_from kv i k v h (suc j) n (start + block_size) (omega (arith, e)))

  module _ (pos : 0 < total) (n : ℕ) (covers : Covers block_size total 0 n) (kv : KvData) where
    merge_layer-blocks_from :
        (i : ℕ) (k v : Tensor)
        → layer kv i ≡ some (k, v)
        → IsTensor k × (total ≡ k.tokens)
        → IsTensor v × (total ≡ v.tokens)
        → merge_layer a i (blocks_from a kv block_size total 0 n) ≡ ok (k, v)
    unfolding merge_layer
    merge_layer-blocks_from i k v h hk hv =
        rw
          (
            gather-blocks_from kv i k v h 0 n 0 (omega arith),
            concatenate-pieces a laws k block_size total n hk.0 hk.1 pos covers,
            concatenate-pieces a laws v block_size total n hv.0 hv.1 pos covers,
          )
          refl

    merge_layers-blocks_from :
        (d : KvData)
        → IsKvData total d
        → Within kv d
        → merge_layers a (layers_of d) (blocks_from a kv block_size total 0 n) ≡ ok d
    unfolding merge_layers
    merge_layers-blocks_from [] h w = refl
    merge_layers-blocks_from ((i, (k, v)) ∷ d) h w =
        rw
          (
            merge_layer-blocks_from i k v (w i (k, v) here) h.1 h.2,
            merge_layers-blocks_from d h.3 (Within-tail kv d i (k, v) h.0 w),
          )
          refl
      where
        here : layer ((i, (k, v)) ∷ d) i ≡ some (k, v)
        here = unfold layer in ground arith

  layers_of-slice_layers :
      (kv : KvData) (start end : ℕ) → layers_of (slice_layers a kv start end) ≡ layers_of kv
  unfolding slice_layers
  layers_of-slice_layers [] start end = refl
  layers_of-slice_layers ((i, (k, v)) ∷ d) start end =
      ap (λ l. i ∷ l) (layers_of-slice_layers d start end)

  to_kv_dict-blocks_from :
      (kv : KvData) (n : ℕ)
      → IsKvData total kv
      → 0 < total
      → Covers block_size total 0 n
      → to_kv_dict a (blocks_from a kv block_size total 0 n) ≡ ok kv
  unfolding to_kv_dict
  to_kv_dict-blocks_from kv zero h pos covers = absurd (none pos covers)
    where
      none : {m : ℕ} → 0 < m → m ≤ 0 → ⊥
      none p q = omega arith
  to_kv_dict-blocks_from kv (suc n) h pos covers =
      rw (sort_by_index-blocks_from a kv block_size total 0 (suc n)) merged
    where
      merged : merge_ordered a (blocks_from a kv block_size total 0 (suc n)) ≡ ok kv
      merged =
          unfold merge_ordered blocks_from block_at in
          ap (λ l. merge_layers a l (blocks_from a kv block_size total 0 (suc n)))
            (layers_of-slice_layers kv (0 * block_size) (min (0 * block_size + block_size) total))
          ∙ merge_layers-blocks_from pos (suc n) covers kv kv h (λ i p e. e)

  total_tokens-blocks_from :
      (kv : KvData) (j n start : ℕ)
      → start ≡ j * block_size
      → Covers block_size total start n
      → total_tokens (blocks_from a kv block_size total j n) + min start total ≡ total
  unfolding total_tokens blocks_from block_at
  total_tokens-blocks_from kv j zero start e c = omega (arith, c)
  total_tokens-blocks_from kv j (suc n) start e c = rw (sym e) (
      omega (
        arith,
        c.0,
        total_tokens-blocks_from kv (suc j) n (start + block_size) (omega (arith, e)) c.1,
      ))

  tokens-layer :
      (d : KvData) (i : ℕ) (k v : Tensor)
      → IsKvData total d
      → layer d i ≡ some (k, v)
      → total ≡ k.tokens
  unfolding layer
  tokens-layer [] i k v h l = cc
  tokens-layer ((j, (k', v')) ∷ d) i k v h l = ground (arith, tokens-layer d i k v h.3)

  -- What `from_kv_dict` makes of data with a layer 0.
  pub from_kv_dict-blocks_from :
      (kv : KvData) (k v : Tensor)
      → IsKvData total kv
      → layer kv 0 ≡ some (k, v)
      → 0 < block_size
      → from_kv_dict a kv block_size
        ≡ ok (blocks_from a kv block_size total 0 ((total + block_size - 1) / block_size))
  unfolding from_kv_dict
  from_kv_dict-blocks_from [] k v h l size = absurd (unfold layer in cc)
  from_kv_dict-blocks_from (e ∷ d) k v h l size =
      unfold token_count split in rw (l, sym (tokens-layer (e ∷ d) 0 k v h l)) (ground arith)

  -- For a positive block size, data whose layers stand once each, with arrays of the same number
  -- of tokens, one at least, and a layer 0, are what `to_kv_dict` gives for the table that
  -- `from_kv_dict` makes of them, and the blocks of the table hold all the tokens.
  pub from_kv_dict-to_kv_dict :
      (kv : KvData) (k v : Tensor)
      → IsKvData total kv
      → layer kv 0 ≡ some (k, v)
      → 0 < total
      → 0 < block_size
      → (blocks : CacheBlockTable) × (from_kv_dict a kv block_size ≡ ok blocks)
        × (to_kv_dict a blocks ≡ ok kv)
        × (total_tokens blocks ≡ total)
  from_kv_dict-to_kv_dict kv k v h l pos size =
      let n = (total + block_size - 1) / block_size in
      let covers = Covers-blocks block_size total size in
      (
        blocks_from a kv block_size total 0 n,
        from_kv_dict-blocks_from kv k v h l size,
        to_kv_dict-blocks_from kv n h pos covers,
        omega (arith, total_tokens-blocks_from kv 0 n 0 (omega arith) covers),
      )

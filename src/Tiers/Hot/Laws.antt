-- ===== src/Tiers/Hot/Laws.antt =====
-- tiers/hot_tier.py: the bookkeeping of the hot tier.
use kv_cache_tier_persistenc.Prelude.{◌≤◌, String, ◌≡◌, refl, ◌⊎◌, arith, length}
use kv_cache_tier_persistenc.Result.{ok}
use kv_cache_tier_persistenc.Dict
use kv_cache_tier_persistenc.Dict.{Dict}
use kv_cache_tier_persistenc.Dict.Bytes.{
  Bytes, sizes_of, total, sizes_of-put, sizes_of-remove, total-put, size-le-total, total-remove,
}
use kv_cache_tier_persistenc.Tiers.Hot.{HotTier, put, delete, clear}

pub record IsValid (t : HotTier) : Type 0 where
  pub unique : Dict.IsUnique t.sizes
  pub sized : t.sizes ≡ sizes_of t.storage
  pub counted : t.current_bytes ≡ total t.sizes
  pub fits : (t.capacity_bytes ≡ 0) ⊎ (t.current_bytes ≤ t.capacity_bytes)

-- Where the hot tier is in order (the sizes are those of what is stored, the running count is
-- their sum and within the capacity, if there is one), so it is after a write that returns, also
-- one that replaces a payload.
pub put-IsValid :
    (t : HotTier) (key : String) (content : Bytes) {t' : HotTier}
    → IsValid t
    → put t key content ≡ ok t'
    → IsValid t'
unfolding put
put-IsValid t key content v h = ground (
  arith,
  Dict.put-IsUnique t.sizes key (length content) v.unique,
  sizes_of-put t.storage key content,
  total-put t.sizes key (length content),
  size-le-total t.sizes key,
)

-- Where the hot tier is in order (the sizes are those of what is stored, the running count is
-- their sum and within the capacity, if there is one), so it is after a deletion.
pub delete-IsValid : (t : HotTier) (key : String) → IsValid t → IsValid (delete t key).0
unfolding delete
delete-IsValid t key v = ground (
  arith,
  Dict.remove-IsUnique t.sizes key v.unique,
  sizes_of-remove t.storage key,
  total-remove t.sizes key v.unique,
)

-- After `clear` the hot tier is in order.
pub clear-IsValid : (t : HotTier) → IsValid (clear t)
unfolding clear sizes_of total
clear-IsValid t = record { unique = tt; sized = refl; counted = refl; fits = ground arith }

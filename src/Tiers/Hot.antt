-- ===== src/Tiers/Hot.antt =====
-- tiers/hot_tier.py: in-memory storage with a running byte count.
pub mod Laws
use kv_cache_tier_persistenc.Prelude.{
  ℕ, ◌+◌, ◌-◌, String, Bool, true, false, ◌&&◌, List, [], ltb, if◌then◌else◌, length,
}
use kv_cache_tier_persistenc.Result.{Result, ok, raise, memory_error}
use kv_cache_tier_persistenc.Dict
use kv_cache_tier_persistenc.Dict.{Dict}
use kv_cache_tier_persistenc.Dict.Bytes.{Bytes, size_or_zero}

pub record HotTier : Type 0 where
  pub capacity_bytes : ℕ
  pub storage : Dict Bytes
  pub sizes : Dict ℕ
  pub current_bytes : ℕ

abbrev pub init : ℕ → HotTier
init capacity = record { capacity_bytes = capacity; storage = []; sizes = []; current_bytes = 0 }

-- `current_bytes - old_size` is exact: the count includes the old size (Laws).
unfoldable pub put : HotTier → String → Bytes → Result HotTier
put t key content =
    let old_size = size_or_zero (Dict.get t.sizes key) in
    let new_bytes = t.current_bytes - old_size + length content in
    if ltb 0 t.capacity_bytes && ltb t.capacity_bytes new_bytes
    then raise memory_error
    else ok (record t {
      storage = Dict.put t.storage key content;
      sizes = Dict.put t.sizes key (length content);
      current_bytes = new_bytes;
    })

unfoldable pub delete : HotTier → String → HotTier × Bool
delete t key =
    if Dict.contains t.storage key
    then (
      record t {
        storage = Dict.remove t.storage key;
        sizes = Dict.remove t.sizes key;
        current_bytes = t.current_bytes - size_or_zero (Dict.get t.sizes key);
      },
      true,
    )
    else (t, false)

unfoldable pub clear : HotTier → HotTier
clear t = record t { storage = []; sizes = []; current_bytes = 0 }

-- ===== src/Tiers/Storage.antt =====
-- tiers/base.py: `StorageTier` as a sum of its subclasses; each method dispatches on the class.
-- `ColdTier.create` is in Tiers/Minio/Connect.
pub mod Laws
use kv_cache_tier_persistenc.Prelude.{
  ℕ, ◌+◌, String, Bool, true, false, ◌&&◌, Option, none, some, List, [], ltb, if◌then◌else◌, length,
}
use kv_cache_tier_persistenc.Result.{Result, ok, raise, ◌>>=◌}
use kv_cache_tier_persistenc.Dict
use kv_cache_tier_persistenc.Dict.{Dict}
use kv_cache_tier_persistenc.Dict.Bytes.{Bytes}
use kv_cache_tier_persistenc.Tiers.Hot
use kv_cache_tier_persistenc.Tiers.Hot.{HotTier}
use kv_cache_tier_persistenc.Tiers.Warm
use kv_cache_tier_persistenc.Tiers.Warm.{WarmTier}
use kv_cache_tier_persistenc.Tiers.Cold
use kv_cache_tier_persistenc.Tiers.Cold.{LocalColdBackend}

-- The tier names "hot", "warm" and "cold".
pub data TierName : Type 0 where
  hot warm cold : TierName

pub data StorageTier : Type 0 where
  hot_tier : HotTier → StorageTier
  warm_tier : WarmTier → StorageTier
  local_cold : LocalColdBackend → StorageTier

pub record TierUsage : Type 0 where
  pub current_bytes : ℕ
  pub capacity_bytes : ℕ
  pub entry_count : ℕ

unfoldable pub usage : StorageTier → TierUsage
usage (hot_tier t) = record {
  current_bytes = t.current_bytes;
  capacity_bytes = t.capacity_bytes;
  entry_count = length t.storage;
}
usage (warm_tier t) = record {
  current_bytes = Warm.current_bytes t;
  capacity_bytes = t.capacity_bytes;
  entry_count = length t.files;
}
usage (local_cold t) = record {
  current_bytes = Cold.current_bytes t;
  capacity_bytes = t.capacity_bytes;
  entry_count = length t.files;
}

-- A capacity of 0 is unlimited.
unfoldable pub is_full : StorageTier → ℕ → Bool
unfolding usage
is_full t size =
    let u = usage t in ltb 0 u.capacity_bytes && ltb u.capacity_bytes (u.current_bytes + size)

unfoldable pub put : StorageTier → String → Bytes → Result StorageTier
unfolding Hot.put Warm.put Cold.put
put (hot_tier t) key content = Hot.put t key content >>= λ t'. ok (hot_tier t')
put (warm_tier t) key content = Warm.put t key content >>= λ t'. ok (warm_tier t')
put (local_cold t) key content = Cold.put t key content >>= λ t'. ok (local_cold t')

unfoldable pub get : StorageTier → String → Option Bytes
unfolding Warm.get Cold.get
get (hot_tier t) key = Dict.get t.storage key
get (warm_tier t) key = Warm.get t key
get (local_cold t) key = Cold.get t key

unfoldable pub delete : StorageTier → String → StorageTier × Bool
unfolding Hot.delete Warm.delete Cold.delete
delete (hot_tier t) key = let (t', found) = Hot.delete t key in (hot_tier t', found)
delete (warm_tier t) key = let (t', found) = Warm.delete t key in (warm_tier t', found)
delete (local_cold t) key = let (t', found) = Cold.delete t key in (local_cold t', found)

unfoldable pub clear : StorageTier → StorageTier
unfolding Hot.clear Warm.clear Cold.clear
clear (hot_tier t) = hot_tier (Hot.clear t)
clear (warm_tier t) = warm_tier (Warm.clear t)
clear (local_cold t) = local_cold (Cold.clear t)

-- What the tier holds, whether or not the operating system lets it be read.
unfoldable pub files : StorageTier → Dict Bytes
files (hot_tier t) = t.storage
files (warm_tier t) = t.files
files (local_cold t) = t.files

unfoldable pub contains : StorageTier → String → Bool
unfolding files
contains t key = Dict.contains (files t) key

unfoldable pub list_entries : StorageTier → List String
unfolding files
list_entries t = Dict.keys (files t)

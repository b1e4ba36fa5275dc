-- ===== src/Manager.antt =====
-- core/tiered_manager.py: `TieredCacheManager`. The state is the three tiers, the index, the
-- policy and the hit and miss records; the clock stands still during one call (`SimulatedClock`).
-- The calls of one another that `evict_from_tier`, `demote` and `_ensure_space_in_tier` make are
-- a recursion on `depth`, one level for each tier.
pub mod Requests
pub mod Init
pub mod Tiers
pub mod Relocate
pub mod Stable
pub mod Demotion
pub mod Holds
pub mod Fits
pub mod Ready
pub mod Count
pub mod Shrinks
pub mod Keyed
pub use kv_cache_tier_persistenc.Prelude.{is_empty}
use kv_cache_tier_persistenc.Prelude.{
  ℕ, zero, suc, ◌+◌, ◌-◌, ◌/◌, String, Bool, true, false, Option, none, some, List, [], ◌∷◌, ◌++◌,
  str_eq, ◌==◌, if◌then◌else◌, length,
}
use kv_cache_tier_persistenc.Result.{Result, ok, raise, out_of_depth, zero_division}
use kv_cache_tier_persistenc.Exec.{Exec, pure, throw, gets, modify, ◌>>=◌, ◌>>◌}
use kv_cache_tier_persistenc.Dict
use kv_cache_tier_persistenc.Dict.{Dict}
use kv_cache_tier_persistenc.Dict.Bytes.{Bytes}
use kv_cache_tier_persistenc.Config.{ModelConfig}
use kv_cache_tier_persistenc.Tensor.{KvData}
use kv_cache_tier_persistenc.Tiers.Storage
use kv_cache_tier_persistenc.Tiers.Storage.{TierName, hot, warm, cold, StorageTier}
use kv_cache_tier_persistenc.Index.{CacheEntry, CacheIndex, tier_eq}
use kv_cache_tier_persistenc.Eviction.Policy.{EvictionPolicy}

-- serialization/serializer.py, `CacheSerializer`: the configuration that `deserialize` returns is
-- dropped by the manager.
pub record CacheSerializer : Type 0 where
  pub serialize : KvData → ModelConfig → Result Bytes
  pub deserialize : Bytes → Result KvData

-- `metrics.record("cache.hit", …)` and `metrics.record("cache.miss", …)`
pub data Metric : Type 0 where
  hit : TierName → Metric
  miss_not_found : Metric
  miss_missing_data : TierName → Metric

pub record Manager (S : Type 0) : Type 0 where
  pub hot_tier : StorageTier
  pub warm_tier : StorageTier
  pub cold_tier : StorageTier
  pub index : CacheIndex
  pub policy : S
  pub now : ℕ
  pub metrics : List Metric

-- The sessions of the index in a tier; the keys are the session ids (Keyed).
unfoldable pub in_tier : TierName → CacheIndex → Dict CacheEntry
in_tier t [] = []
in_tier t ((k, e) ∷ index) =
    let rest = in_tier t index in if tier_eq e.tier t then (k, e) ∷ rest else rest

-- the tier that `demote` moves to
abbrev pub colder : TierName → Option TierName
colder hot = some warm
colder warm = some cold
colder cold = none

-- (token_count + block_size - 1) // block_size
unfoldable pub num_blocks : ModelConfig → ℕ → Result ℕ
num_blocks c tokens =
    if c.block_size == 0
    then raise zero_division
    else ok ((tokens + c.block_size - 1) / c.block_size)

module _ {S : Type 0} where
  -- `_get_tier`
  unfoldable pub tier : Manager S → TierName → StorageTier
  tier m hot = m.hot_tier
  tier m warm = m.warm_tier
  tier m cold = m.cold_tier

  unfoldable pub set_tier : Manager S → TierName → StorageTier → Manager S
  set_tier m hot t = record m { hot_tier = t }
  set_tier m warm t = record m { warm_tier = t }
  set_tier m cold t = record m { cold_tier = t }

  -- `tier.put(…)`, which leaves the tier as it was when it raises
  unfoldable pub put_in : TierName → String → Bytes → Exec (Manager S) (Unit {0})
  put_in t k b m = elim (Storage.put (tier m t) k b) [
    | ok t' ↦ (ok tt, set_tier m t t')
    | raise e ↦ (raise e, m)
  ]

  unfoldable pub delete_in : TierName → String → Exec (Manager S) (Unit {0})
  delete_in t k m = (ok tt, set_tier m t (Storage.delete (tier m t) k).0)

  -- `entry.tier = target_tier`, through the reference: no effect on an entry that left the index
  unfoldable pub move_entry : String → TierName → Manager S → Manager S
  move_entry sid t m = record m { index = Dict.adjust m.index sid (λ e. record e { tier = t }) }

  unfoldable pub drop_entry : String → Manager S → Manager S
  drop_entry sid m = record m { index = Dict.remove m.index sid }

  unfoldable pub note : Metric → Manager S → Manager S
  note x m = record m { metrics = m.metrics ++ x ∷ [] }

  -- the last three statements of `promote` and of `demote`
  unfoldable pub relocate : String → TierName → TierName → Bytes → Exec (Manager S) (Unit {0})
  relocate sid source target content = do
    put_in target sid content
    delete_in source sid
    modify (move_entry sid target)

  -- `_ensure_space_in_tier`, with the attempts that are left
  unfoldable pub ensure_space :
      (TierName → Exec (Manager S) Bool) → ℕ → TierName → ℕ → Exec (Manager S) (Unit {0})
  ensure_space evict zero t size = pure tt
  ensure_space evict (suc attempts) t size =
      let again = ensure_space evict attempts t size in
      do
        full ← gets (λ m. Storage.is_full (tier m t) size)
        if full then (do evicted ← evict t; if evicted then again else pure tt) else pure tt

abbrev pub max_attempts : ℕ
max_attempts = 50

module _ {S : Type 0} (p : EvictionPolicy S) where
  -- `self.index.remove(…)` and `self.eviction_policy.on_remove(…)`
  unfoldable pub forget : String → Manager S → Manager S
  forget sid m = record m { index = Dict.remove m.index sid; policy = p.on_remove m.policy sid }

  delete_found : String → Option CacheEntry → Exec (Manager S) Bool
  delete_found sid none = pure false
  delete_found sid (some entry) = do delete_in entry.tier sid; modify (forget sid); pure true

  unfoldable pub delete : String → Exec (Manager S) Bool
  unfolding delete_found
  delete sid = do entry ← gets (λ m. Dict.get m.index sid); delete_found sid entry

  module _ (evict : TierName → Exec (Manager S) Bool) where
    -- `demote` from where the data is at hand
    demote_data : String → TierName → TierName → Bytes → Exec (Manager S) Bool
    demote_data sid source target content = do
      ensure_space evict max_attempts target (length content)
      full ← gets (λ m. Storage.is_full (tier m target) (length content))
      if full
          then (if tier_eq target cold
              then (do delete_in source sid; modify (forget sid); pure true)
              else pure false)
          else (do relocate sid source target content; pure true)

    demote_read : String → TierName → TierName → Option Bytes → Exec (Manager S) Bool
    demote_read sid source target none = pure false
    demote_read sid source target (some content) =
        if is_empty content then pure false else demote_data sid source target content

    demote_from : String → TierName → Option TierName → Exec (Manager S) Bool
    demote_from sid source none = pure false
    demote_from sid source (some target) = do
      found ← gets (λ m. Storage.get (tier m source) sid)
      demote_read sid source target found

    demote_found : String → Option CacheEntry → Exec (Manager S) Bool
    demote_found sid none = pure false
    demote_found sid (some entry) = demote_from sid entry.tier (colder entry.tier)

    unfoldable pub demote_with : String → Exec (Manager S) Bool
    unfolding demote_data demote_read demote_from demote_found
    demote_with sid = do entry ← gets (λ m. Dict.get m.index sid); demote_found sid entry

  -- `evict_from_tier` from where the victim is known; an empty id counts as no victim
  evict_victim : (String → Exec (Manager S) Bool) → TierName → Option String → Exec (Manager S) Bool
  evict_victim demote t none = pure false
  evict_victim demote t (some victim) =
      if str_eq victim ""
      then pure false
      else if tier_eq t cold
      then (do delete victim; pure true)
      else demote victim

  unfoldable pub victim : TierName → Manager S → Option String
  victim t m =
      let entries = in_tier t m.index in
      if is_empty entries then none else p.select_victim m.policy m.now entries

  -- `evict_from_tier`
  unfoldable pub evict_at : ℕ → TierName → Exec (Manager S) Bool
  unfolding evict_victim
  evict_at zero t = throw out_of_depth
  evict_at (suc depth) t =
      let demote = demote_with (evict_at depth) in do v ← gets (victim t); evict_victim demote t v

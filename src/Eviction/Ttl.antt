-- ===== src/Eviction/Ttl.antt =====
-- eviction/ttl.py: expiry by the tier's time to live, over the LRU order. Times are numbers in one
-- unit; `now - last_accessed > ttl` is written `last_accessed + ttl < now`, and the time that remains
-- is compared with `now` added to both sides, which is exact for integers of either sign.
pub mod Victim
use kv_cache_tier_persistenc.Prelude.{
  ℕ, zero, suc, ◌+◌, String, ◌≡◌, Bool, true, false, ◌&&◌, Option, none, some, List, [], ◌∷◌, arith,
  str_eq, ltb, if◌then◌else◌,
}
use kv_cache_tier_persistenc.Dict
use kv_cache_tier_persistenc.Dict.{Dict}
use kv_cache_tier_persistenc.Tiers.Storage.{TierName, hot, warm, cold}
use kv_cache_tier_persistenc.Index.{CacheEntry}
use kv_cache_tier_persistenc.Eviction.Argmin.{argmin}
use kv_cache_tier_persistenc.Eviction.Lru
use kv_cache_tier_persistenc.Eviction.Policy.{EvictionPolicy}

-- Seconds for each tier; 0 means never.
pub record TtlSeconds : Type 0 where
  pub hot_ttl : ℕ
  pub warm_ttl : ℕ
  pub cold_ttl : ℕ

abbrev pub defaults : TtlSeconds
defaults = record { hot_ttl = 300; warm_ttl = 3600; cold_ttl = 86400 }

unfoldable pub ttl_of : TtlSeconds → TierName → ℕ
ttl_of c hot = c.hot_ttl
ttl_of c warm = c.warm_ttl
ttl_of c cold = c.cold_ttl

module _ (c : TtlSeconds) where
  -- `ttl > 0 and (now - entry.last_accessed) > ttl`
  unfoldable pub is_expired : ℕ → CacheEntry → Bool
  is_expired now e = ltb 0 (ttl_of c e.tier) && ltb (e.last_accessed + ttl_of c e.tier) now

  unfoldable pub should_evict : ℕ → CacheEntry → Bool
  unfolding is_expired
  should_evict now e = is_expired now e

  -- the first loop looks at the expired entries, by their last access
  unfoldable pub expired_score : ℕ → CacheEntry → Option ℕ
  expired_score now e = if is_expired now e then some e.last_accessed else none

  -- the second loop at those that can expire, by the time that remains (plus `now`)
  unfoldable pub remaining_score : CacheEntry → Option ℕ
  remaining_score e =
      if ltb 0 (ttl_of c e.tier) then some (e.last_accessed + ttl_of c e.tier) else none

  -- `if victim:`, which an empty id fails
  abbrev pub or_next : Option (String × ℕ) → Option String → Option String
  or_next none next = next
  or_next (some (v, n)) next = if str_eq v "" then next else some v

  unfoldable pub select_victim : List String → ℕ → Dict CacheEntry → Option String
  select_victim order now [] = none
  select_victim order now (e ∷ entries) =
      or_next (argmin (expired_score now) (e ∷ entries) none) (
        or_next (argmin remaining_score (e ∷ entries) none) (Lru.select_victim order (e ∷ entries)))

  unfoldable pub ttl : EvictionPolicy (List String)
  ttl = record {
    on_access = λ s now sid e. Lru.on_access s sid;
    on_insert = λ s now sid e. Lru.on_insert s sid;
    on_remove = Lru.on_remove;
    select_victim = select_victim;
    should_evict = λ s now sid e. should_evict now e;
  }

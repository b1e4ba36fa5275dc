-- ===== src/Eviction/Policy.antt =====
-- eviction/base.py: the interface of a policy, as operations on a state `S`, and what the manager
-- needs of a policy. `now` is what the policy's clock reads.
use kv_cache_tier_persistenc.Prelude.{ℕ, String, ◌≡◌, Bool, Option, some, true}
use kv_cache_tier_persistenc.Dict
use kv_cache_tier_persistenc.Dict.{Dict}
use kv_cache_tier_persistenc.Index.{CacheEntry}

pub record EvictionPolicy (S : Type 0) : Type 0 where
  pub on_access : S → ℕ → String → CacheEntry → S
  pub on_insert : S → ℕ → String → CacheEntry → S
  pub on_remove : S → String → S
  pub select_victim : S → ℕ → Dict CacheEntry → Option String
  pub should_evict : S → ℕ → String → CacheEntry → Bool

-- A victim is one of the candidates.
pub record IsSound {S : Type 0} (p : EvictionPolicy S) : Type 0 where
  pub candidate :
      (s : S) (now : ℕ) (entries : Dict CacheEntry) (v : String)
      → p.select_victim s now entries ≡ some v
      → Dict.contains entries v ≡ true

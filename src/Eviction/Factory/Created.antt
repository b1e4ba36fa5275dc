-- ===== src/Eviction/Factory/Created.antt =====
-- eviction/__init__.py: every policy that the factory makes chooses among its candidates.
use kv_cache_tier_persistenc.Prelude.{ℕ, String, ◌≡◌, true, some}
use kv_cache_tier_persistenc.Dict
use kv_cache_tier_persistenc.Dict.{Dict}
use kv_cache_tier_persistenc.Float.{Floats, MathModule}
use kv_cache_tier_persistenc.Index.{CacheEntry}
use kv_cache_tier_persistenc.Eviction.Policy.{IsSound}
use kv_cache_tier_persistenc.Eviction.Lru.{lru-IsSound}
use kv_cache_tier_persistenc.Eviction.Ttl.Victim.{ttl-IsSound}
use kv_cache_tier_persistenc.Eviction.Predictive.Victim.{predictive-IsSound}
use kv_cache_tier_persistenc.Eviction.ValueDensity.Victim.{value_density-IsSound}
use kv_cache_tier_persistenc.Eviction.SpaceTime.Victim.{space_time-IsSound}
use kv_cache_tier_persistenc.Eviction.Factory.{
  Policy, of_lru, of_ttl, of_predictive, of_value_density, of_space_time, select_victim, created,
}

module _ {F : Type 0} (f : Floats F) (math : MathModule F) where
  select_victim-candidate :
      (s : Policy F) (now : ℕ) (entries : Dict CacheEntry) (v : String)
      → select_victim f math s now entries ≡ some v
      → Dict.contains entries v ≡ true
  unfolding select_victim
  select_victim-candidate (of_lru s) = lru-IsSound.candidate s
  select_victim-candidate (of_ttl c s) = (ttl-IsSound c).candidate s
  select_victim-candidate (of_predictive c s) = (predictive-IsSound f math c).candidate s
  select_victim-candidate (of_value_density c s) = (value_density-IsSound f math c).candidate s
  select_victim-candidate (of_space_time c s) = (space_time-IsSound f c).candidate s

  pub created-IsSound : IsSound (created f math)
  created-IsSound = record { candidate = select_victim-candidate }

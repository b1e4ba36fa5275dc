-- ===== src/Eviction/Sound.antt =====
-- eviction/: the victims of all policies.
use kv_cache_tier_persistenc.Prelude.{ℕ, List}
use kv_cache_tier_persistenc.Float.{Floats, MathModule}
use kv_cache_tier_persistenc.CostModel.{CostModel}
use kv_cache_tier_persistenc.Eviction.Policy.{IsSound}
use kv_cache_tier_persistenc.Eviction.Lru.{lru, lru-IsSound}
use kv_cache_tier_persistenc.Eviction.Ttl.{TtlSeconds, ttl}
use kv_cache_tier_persistenc.Eviction.Ttl.Victim.{ttl-IsSound}
use kv_cache_tier_persistenc.Eviction.Predictive.{PredictiveEvictionPolicy, predictive_policy}
use kv_cache_tier_persistenc.Eviction.Predictive.Victim.{predictive-IsSound}
use kv_cache_tier_persistenc.Eviction.ValueDensity.{ValueDensityPolicy, value_density_policy}
use kv_cache_tier_persistenc.Eviction.ValueDensity.Victim.{value_density-IsSound}
use kv_cache_tier_persistenc.Eviction.SpaceTime.{SpaceTimeDensityPolicy, space_time_policy}
use kv_cache_tier_persistenc.Eviction.SpaceTime.Victim.{space_time-IsSound}
use kv_cache_tier_persistenc.Eviction.Oracle.{TraceOracle}
use kv_cache_tier_persistenc.Eviction.Oracle.Belady.{belady, belady-IsSound}
use kv_cache_tier_persistenc.Eviction.Oracle.Classifier.{oracle_classifier}
use kv_cache_tier_persistenc.Eviction.Oracle.Agreement.{oracle_classifier-IsSound}
use kv_cache_tier_persistenc.Eviction.Oracle.SpaceTime.{
  oracle_space_time, oracle_space_time-IsSound,
}

-- Whatever its parameters, floats and predictor, each policy - LRU, TTL, predictive, value density,
-- space-time density, and the three oracles - chooses only victims among the candidates.
pub policies-IsSound :
    {F : Type 0} (f : Floats F) (math : MathModule F) (seconds : TtlSeconds)
    (predictive : PredictiveEvictionPolicy F) (value : ValueDensityPolicy F)
    (space_time : SpaceTimeDensityPolicy F) (searchsorted : List ℕ → ℕ → ℕ) (oracle : TraceOracle)
    (window : F) (cost : CostModel F)
    → IsSound lru
      × IsSound (ttl seconds)
      × IsSound (predictive_policy f math predictive)
      × IsSound (value_density_policy f math value)
      × IsSound (space_time_policy f space_time)
      × IsSound (belady searchsorted oracle)
      × IsSound (oracle_classifier f searchsorted oracle window)
      × IsSound (oracle_space_time f searchsorted oracle cost)
policies-IsSound f math seconds predictive value space_time searchsorted oracle window cost = (
  lru-IsSound,
  ttl-IsSound seconds,
  predictive-IsSound f math predictive,
  value_density-IsSound f math value,
  space_time-IsSound f space_time,
  belady-IsSound searchsorted oracle,
  oracle_classifier-IsSound f searchsorted oracle window,
  oracle_space_time-IsSound f searchsorted oracle cost,
)

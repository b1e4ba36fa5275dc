-- ===== src/Eviction/ValueDensity.antt =====
-- eviction/value_density.py: `ValueDensityPolicy`, the least expected value for each byte, and the
-- admission test. The state that changes is the access history.
pub mod Victim
use kv_cache_tier_persistenc.Prelude.{
  ℕ, String, Bool, true, false, Option, none, some, max, if◌then◌else◌,
}
use kv_cache_tier_persistenc.Dict.{Dict}
use kv_cache_tier_persistenc.Float.{Floats, MathModule}
use kv_cache_tier_persistenc.Index.{CacheEntry}
use kv_cache_tier_persistenc.CostModel.{CostModel, compute_recompute_time}
use kv_cache_tier_persistenc.Eviction.Policy.{EvictionPolicy}
use kv_cache_tier_persistenc.Eviction.Features.{FeatureExtractor, record_access, build}
use kv_cache_tier_persistenc.Eviction.Scores.{
  ResumePredictor, score_all, batch_scores, select_least,
}

pub record ValueDensityPolicy (F : Type 0) : Type 0 where
  pub predictor : Option (ResumePredictor F)
  pub cost_model : CostModel F
  pub admission_threshold : F

-- `on_access` and `on_insert`
unfoldable pub on_use : FeatureExtractor → ℕ → String → CacheEntry → FeatureExtractor
on_use x now sid e = record_access x now e.user_id sid e.token_count

module _ {F : Type 0} (f : Floats F) (math : MathModule F) (c : ValueDensityPolicy F) where
  -- (p * recompute) / max(entry.size_bytes, 1)
  unfoldable pub density_at : CacheEntry → F → F
  density_at e p =
      f.div (f.mul p (compute_recompute_time f c.cost_model e.token_count))
        (f.of_nat (max e.size_bytes 1))

  -- math.exp(-0.001 * (now - entry.last_accessed))
  unfoldable pub recency : ℕ → CacheEntry → F
  recency now e =
      math.exp_neg (f.mul (f.literal 1 1000) (f.sub (f.of_nat now) (f.of_nat e.last_accessed)))

  unfoldable pub density_with : Option (ResumePredictor F) → FeatureExtractor → ℕ → CacheEntry → F
  unfolding density_at recency
  density_with none x now e = density_at e (recency now e)
  density_with (some p) x now e = density_at e (p.predict_resume_probability (build f x now e))

  unfoldable pub value_density : FeatureExtractor → ℕ → CacheEntry → F
  unfolding density_with
  value_density = density_with c.predictor

  unfoldable pub scores_with :
      Option (ResumePredictor F) → FeatureExtractor → ℕ → Dict CacheEntry → Dict F
  unfolding density_with
  scores_with none x now entries = score_all (λ sid e. density_with none x now e) entries
  scores_with (some p) x now entries =
      batch_scores f p x now (λ sid e prob. density_at e prob) entries

  -- `_batch_scores`, also `get_scores`
  unfoldable pub value_scores : FeatureExtractor → ℕ → Dict CacheEntry → Dict F
  unfolding scores_with
  value_scores = scores_with c.predictor

  unfoldable pub select_victim : FeatureExtractor → ℕ → Dict CacheEntry → Option String
  unfolding value_scores
  select_victim x now entries = select_least f.lt (value_scores x now) entries

  unfoldable pub should_evict : FeatureExtractor → ℕ → CacheEntry → Bool
  unfolding value_density
  should_evict x now e =
      if f.lt (f.of_nat 0) c.admission_threshold
      then f.lt (value_density x now e) c.admission_threshold
      else false

  unfoldable pub value_density_policy : EvictionPolicy FeatureExtractor
  value_density_policy = record {
    on_access = on_use;
    on_insert = on_use;
    on_remove = λ x sid. x;
    select_victim = select_victim;
    should_evict = λ x now sid e. should_evict x now e;
  }

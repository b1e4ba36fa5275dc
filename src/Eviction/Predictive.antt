-- ===== src/Eviction/Predictive.antt =====
-- eviction/predictive.py: `PredictiveEvictionPolicy`, the weighted formula or the predictor. The
-- state that changes is the access history. `set_predictor` is in Factory; a model file is not modelled.
pub mod Victim
use kv_cache_tier_persistenc.Prelude.{
  ℕ, String, Bool, true, false, Option, none, some, List, [], ◌∷◌, max, str_eq, if◌then◌else◌,
}
use kv_cache_tier_persistenc.Dict
use kv_cache_tier_persistenc.Dict.{Dict}
use kv_cache_tier_persistenc.Float.{Floats, MathModule}
use kv_cache_tier_persistenc.Index.{CacheEntry}
use kv_cache_tier_persistenc.Eviction.Policy.{EvictionPolicy}
use kv_cache_tier_persistenc.Eviction.Features.{FeatureExtractor, record_access}
use kv_cache_tier_persistenc.Eviction.Scores.{
  ResumePredictor, score_all, batch_scores, select_least,
}

pub record PredictiveEvictionPolicy (F : Type 0) : Type 0 where
  pub strategy : String
  pub alpha : F
  pub beta : F
  pub gamma : F
  pub decay_half_life : ℕ
  pub predictor : Option (ResumePredictor F)

-- `on_access` and `on_insert`
unfoldable pub on_use : FeatureExtractor → ℕ → String → CacheEntry → FeatureExtractor
on_use x now sid e = record_access x now e.user_id sid e.token_count

-- `max((value(e) for e in entries.values()), default=1)`
unfoldable pub greatest : (CacheEntry → ℕ) → List CacheEntry → ℕ
greatest value [] = 1
greatest value (e ∷ []) = value e
greatest value (e ∷ d ∷ l) = max (value e) (greatest value (d ∷ l))

module _ {F : Type 0} (f : Floats F) (math : MathModule F) (c : PredictiveEvictionPolicy F) where
  -- math.exp(-math.log(2) * time_since_access / self.decay_half_life)
  unfoldable pub recency_score : ℕ → CacheEntry → F
  recency_score now e = math.exp_neg (
      f.div (f.mul math.log_two (f.sub (f.of_nat now) (f.of_nat e.last_accessed)))
        (f.of_nat c.decay_half_life))

  -- alpha * freq_score + beta * recency_score + gamma * value_score
  unfoldable pub heuristic_score : ℕ → ℕ → ℕ → String → CacheEntry → F
  unfolding recency_score
  heuristic_score max_access max_tokens now sid e =
      let freq_score = f.div (f.of_nat e.access_count) (f.of_nat (max max_access 1)) in
      let value_score = f.div (f.of_nat e.token_count) (f.of_nat (max max_tokens 1)) in
      f.add (f.add (f.mul c.alpha freq_score) (f.mul c.beta (recency_score now e)))
        (f.mul c.gamma value_score)

  unfoldable pub heuristic_scores : ℕ → Dict CacheEntry → Dict F
  unfolding heuristic_score greatest
  heuristic_scores now entries =
      score_all
        (heuristic_score (greatest (λ e. e.access_count) (Dict.values entries))
          (greatest (λ e. e.token_count) (Dict.values entries)) now)
        entries

  unfoldable pub ml_scores : ResumePredictor F → FeatureExtractor → ℕ → Dict CacheEntry → Dict F
  ml_scores p x now entries = batch_scores f p x now (λ sid e prob. prob) entries

  unfoldable pub scores_with :
      Bool → Option (ResumePredictor F) → FeatureExtractor → ℕ → Dict CacheEntry → Dict F
  unfolding heuristic_scores ml_scores
  scores_with true o x now entries = heuristic_scores now entries
  scores_with false none x now entries = heuristic_scores now entries
  scores_with false (some p) x now entries = ml_scores p x now entries

  unfoldable pub get_scores : FeatureExtractor → ℕ → Dict CacheEntry → Dict F
  unfolding scores_with
  get_scores x now [] = []
  get_scores x now (b ∷ entries) =
      scores_with (str_eq c.strategy "heuristic") c.predictor x now (b ∷ entries)

  unfoldable pub select_victim : FeatureExtractor → ℕ → Dict CacheEntry → Option String
  unfolding get_scores
  select_victim x now entries = select_least f.lt (get_scores x now) entries

  unfoldable pub predictive_policy : EvictionPolicy FeatureExtractor
  predictive_policy = record {
    on_access = on_use;
    on_insert = on_use;
    on_remove = λ x sid. x;
    select_victim = select_victim;
    should_evict = λ x now sid e. false;
  }

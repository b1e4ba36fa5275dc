-- ===== src/Eviction/ValueDensity/Victim.antt =====
-- eviction/value_density.py: the victim, against the density of each candidate alone.
use kv_cache_tier_persistenc.Prelude.{ℕ, String, ◌≡◌, refl, true, Option, none, some, ◌∷◌}
use kv_cache_tier_persistenc.Dict
use kv_cache_tier_persistenc.Dict.{Dict}
use kv_cache_tier_persistenc.Float.{Floats, MathModule, IsOrdered}
use kv_cache_tier_persistenc.Index.{CacheEntry}
use kv_cache_tier_persistenc.Eviction.Policy.{IsSound}
use kv_cache_tier_persistenc.Eviction.Features.{FeatureExtractor}
use kv_cache_tier_persistenc.Eviction.Scores.{ResumePredictor, IsFair, score_all}
use kv_cache_tier_persistenc.Eviction.Scores.Least.{
  IsLeastScored, select_least_lem, batch_scores-score_all, select_least-contains,
  batch_scores-contains, score_all-contains,
}
use kv_cache_tier_persistenc.Eviction.ValueDensity.{
  ValueDensityPolicy, scores_with, density_with, density_at, value_density, value_scores,
  select_victim, value_density_policy,
}

module _ {F : Type 0} (f : Floats F) (math : MathModule F) (c : ValueDensityPolicy F) where
  scores_with-score_all :
      (o : Option (ResumePredictor F)) (x : FeatureExtractor) (now : ℕ) (entries : Dict CacheEntry)
      → IsFair o
      → scores_with f math c o x now entries
        ≡ score_all (λ sid e. density_with f math c o x now e) entries
  unfolding scores_with density_with
  scores_with-score_all none x now entries r = refl
  scores_with-score_all (some p) x now entries r =
      batch_scores-score_all f p x now (λ sid e prob. density_at f math c e prob) entries r

  scores_with-contains :
      (o : Option (ResumePredictor F)) (x : FeatureExtractor) (now : ℕ) (d : Dict CacheEntry)
      (v : String)
      → Dict.contains (scores_with f math c o x now d) v ≡ true
      → Dict.contains d v ≡ true
  unfolding scores_with
  scores_with-contains none x now d v h =
      score_all-contains (λ sid e. density_with f math c none x now e) d v h
  scores_with-contains (some p) x now d v h =
      batch_scores-contains f p x now (λ sid e prob. density_at f math c e prob) d v h

  -- Where floats are ordered and the predictor scores row by row, any non-empty dict of candidates
  -- has a victim, which is one of them, and no candidate has a smaller value density.
  pub select_victim_densest :
      (x : FeatureExtractor) (now : ℕ) (b : String × CacheEntry) (entries : Dict CacheEntry)
      → IsOrdered f.lt
      → IsFair c.predictor
      → Dict.IsUnique (b ∷ entries)
      → (v : String) × (select_victim f math c x now (b ∷ entries) ≡ some v)
        × IsLeastScored f.lt (λ sid e. value_density f math c x now e) (b ∷ entries) v
  unfolding select_victim value_scores value_density
  select_victim_densest x now b entries o r u =
      select_least_lem f.lt o (value_scores f math c x now)
        (λ sid e. value_density f math c x now e) b entries u
        (scores_with-score_all c.predictor x now (b ∷ entries) r)

  pub value_density-IsSound : IsSound (value_density_policy f math c)
  unfolding value_density_policy select_victim value_scores
  value_density-IsSound = record {
    candidate = λ x now d v h.
        select_least-contains f.lt (scores_with f math c c.predictor x now) d v
          (scores_with-contains c.predictor x now d) h;
  }

-- ===== src/Eviction/Predictive/Victim.antt =====
-- eviction/predictive.py: the victim, against the score of each candidate.
use kv_cache_tier_persistenc.Prelude.{
  ℕ, String, ◌≡◌, refl, Bool, true, false, Option, none, some, [], ◌∷◌, str_eq,
}
use kv_cache_tier_persistenc.Dict
use kv_cache_tier_persistenc.Dict.{Dict}
use kv_cache_tier_persistenc.Float.{Floats, MathModule, IsOrdered}
use kv_cache_tier_persistenc.Index.{CacheEntry}
use kv_cache_tier_persistenc.Eviction.Policy.{IsSound}
use kv_cache_tier_persistenc.Eviction.Features.{FeatureExtractor, build}
use kv_cache_tier_persistenc.Eviction.Scores.{ResumePredictor, IsFair, score_all}
use kv_cache_tier_persistenc.Eviction.Scores.Least.{
  IsLeastScored, select_least_lem, batch_scores-score_all, select_least-contains,
  batch_scores-contains, score_all-contains,
}
use kv_cache_tier_persistenc.Eviction.Predictive.{
  PredictiveEvictionPolicy, greatest, heuristic_score, scores_with, get_scores, select_victim,
  predictive_policy,
}

module _ {F : Type 0} (f : Floats F) (math : MathModule F) (c : PredictiveEvictionPolicy F) where
  -- The score of one candidate among `entries`: the probability that the predictor gives it, or the
  -- weighted formula.
  pub score_with :
      Bool
      → Option (ResumePredictor F)
      → FeatureExtractor
      → ℕ
      → Dict CacheEntry
      → String
      → CacheEntry
      → F
  score_with false (some p) x now entries sid e = p.predict_resume_probability (build f x now e)
  score_with true o x now entries sid e =
      heuristic_score f math c (greatest (λ a. a.access_count) (Dict.values entries))
        (greatest (λ a. a.token_count) (Dict.values entries)) now sid e
  score_with false none x now entries sid e =
      heuristic_score f math c (greatest (λ a. a.access_count) (Dict.values entries))
        (greatest (λ a. a.token_count) (Dict.values entries)) now sid e

  scores_with-score_all :
      (h : Bool) (o : Option (ResumePredictor F)) (x : FeatureExtractor) (now : ℕ)
      (entries : Dict CacheEntry)
      → IsFair o
      → scores_with f math c h o x now entries ≡ score_all (score_with h o x now entries) entries
  unfolding scores_with score_with
  scores_with-score_all true o x now entries r = refl
  scores_with-score_all false none x now entries r = refl
  scores_with-score_all false (some p) x now entries r =
      batch_scores-score_all f p x now (λ sid e prob. prob) entries r

  scores_with-contains :
      (h : Bool) (o : Option (ResumePredictor F)) (x : FeatureExtractor) (now : ℕ)
      (d : Dict CacheEntry) (v : String)
      → Dict.contains (scores_with f math c h o x now d) v ≡ true
      → Dict.contains d v ≡ true
  unfolding scores_with
  scores_with-contains true o x now d v q =
      score_all-contains (score_with true o x now d) d v (unfold score_with in q)
  scores_with-contains false none x now d v q =
      score_all-contains (score_with false none x now d) d v (unfold score_with in q)
  scores_with-contains false (some p) x now d v q =
      batch_scores-contains f p x now (λ sid e prob. prob) d v q

  -- Where floats are ordered and the predictor scores row by row, any non-empty dict of candidates
  -- has a victim, which is one of them, and no candidate has a smaller score: the probability that
  -- the predictor gives, or the weighted formula where the strategy is the heuristic or no
  -- predictor is there.
  pub select_victim_unlikely :
      (x : FeatureExtractor) (now : ℕ) (b : String × CacheEntry) (entries : Dict CacheEntry)
      → IsOrdered f.lt
      → IsFair c.predictor
      → Dict.IsUnique (b ∷ entries)
      → (v : String) × (select_victim f math c x now (b ∷ entries) ≡ some v)
        × IsLeastScored f.lt
            (score_with (str_eq c.strategy "heuristic") c.predictor x now (b ∷ entries))
            (b ∷ entries)
            v
  unfolding select_victim get_scores
  select_victim_unlikely x now b entries o r u =
      select_least_lem f.lt o (get_scores f math c x now)
        (score_with (str_eq c.strategy "heuristic") c.predictor x now (b ∷ entries)) b entries u
        (scores_with-score_all (str_eq c.strategy "heuristic") c.predictor x now (b ∷ entries) r)

  get_scores-contains :
      (x : FeatureExtractor) (now : ℕ) (d : Dict CacheEntry) (v : String)
      → Dict.contains (get_scores f math c x now d) v ≡ true
      → Dict.contains d v ≡ true
  unfolding get_scores Dict.get
  get_scores-contains x now [] v q = q
  get_scores-contains x now (b ∷ d) v q =
      scores_with-contains (str_eq c.strategy "heuristic") c.predictor x now (b ∷ d) v q

  pub predictive-IsSound : IsSound (predictive_policy f math c)
  unfolding predictive_policy select_victim
  predictive-IsSound = record {
    candidate = λ x now d v h.
        select_least-contains f.lt (get_scores f math c x now) d v (get_scores-contains x now d) h;
  }

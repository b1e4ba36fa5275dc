-- ===== src/Eviction/Scores.antt =====
-- What the policies that score share: the dict of scores of the candidates, the predictor
-- (eviction/predictors.py, `ResumePredictor`) with its batches, and the choice of the least score.
pub mod Least
use kv_cache_tier_persistenc.Prelude.{ℕ, String, ◌≡◌, Bool, Option, none, some, List, [], ◌∷◌, map}
use kv_cache_tier_persistenc.Dict
use kv_cache_tier_persistenc.Dict.{Dict}
use kv_cache_tier_persistenc.Float.{Floats}
use kv_cache_tier_persistenc.Index.{CacheEntry}
use kv_cache_tier_persistenc.Eviction.MinKey.{min_key}
use kv_cache_tier_persistenc.Eviction.Features.{SessionFeatures, FeatureExtractor, build}

-- A fitted model: the arithmetic of scikit-learn is a parameter.
pub record ResumePredictor (F : Type 0) : Type 0 where
  pub predict_resume_probability : SessionFeatures F → F
  pub predict_batch : List (SessionFeatures F) → List F

-- `predict_proba` treats the rows of a matrix one by one.
abbrev pub IsRowwise : {F : Type 0} → ResumePredictor F → Type 0
IsRowwise p =
    (features : List (SessionFeatures _))
    → p.predict_batch features ≡ map p.predict_resume_probability features

-- The predictor, where there is one, scores row by row.
abbrev pub IsFair : {F : Type 0} → Option (ResumePredictor F) → Type 0
IsFair none = Unit
IsFair (some p) = IsRowwise p

module _ {F : Type 0} where
  -- `{sid: score(sid, entries[sid]) for sid in ids}`
  unfoldable pub score_all : (String → CacheEntry → F) → Dict CacheEntry → Dict F
  score_all score [] = []
  score_all score ((sid, e) ∷ entries) = (sid, score sid e) ∷ score_all score entries

  -- `{sid: score(sid, entries[sid], p) for sid, p in zip(ids, probs)}`
  unfoldable pub zip_scores : (String → CacheEntry → F → F) → Dict CacheEntry → List F → Dict F
  zip_scores score [] probs = []
  zip_scores score ((sid, e) ∷ entries) [] = []
  zip_scores score ((sid, e) ∷ entries) (p ∷ probs) =
      (sid, score sid e p) ∷ zip_scores score entries probs

module _ {F : Type 0} (f : Floats F) where
  -- `feats = [build(entries[sid]) for sid in ids]`, one call of `predict_batch`, then the scores
  unfoldable pub batch_scores :
      ResumePredictor F
      → FeatureExtractor
      → ℕ
      → (String → CacheEntry → F → F)
      → Dict CacheEntry
      → Dict F
  unfolding zip_scores
  batch_scores p x now score entries =
      zip_scores score entries (p.predict_batch (map (build f x now) (Dict.values entries)))

-- `if not entries: return None`, then `min(scores, key=scores.get)`
unfoldable pub select_least :
    {F : Type 0} → (F → F → Bool) → (Dict CacheEntry → Dict F) → Dict CacheEntry → Option String
select_least lt scores [] = none
select_least lt scores (b ∷ entries) = min_key lt (scores (b ∷ entries))

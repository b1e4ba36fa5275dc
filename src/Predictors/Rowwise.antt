-- ===== src/Predictors/Rowwise.antt =====
-- eviction/predictors.py: a fitted predictor, one session at a time and in batches.
use kv_cache_tier_persistenc.Prelude.{◌≡◌, List, map}
use kv_cache_tier_persistenc.Result.{Result, ok}
use kv_cache_tier_persistenc.Float.{Floats}
use kv_cache_tier_persistenc.Eviction.Features.{SessionFeatures}
use kv_cache_tier_persistenc.Eviction.Scores.{ResumePredictor, IsRowwise}
use kv_cache_tier_persistenc.Predictors.{Sklearn}

-- What scikit-learn documents: a row is scaled, and given its probability, whatever the other rows are.
pub record TreatsRows {F Scaler Model : Type 0} (sk : Sklearn F Scaler Model) : Type 0 where
  pub scale_row : Scaler → List F → List F
  pub row_probability : Model → List F → F
  pub scales : (s : Scaler) (x : List (List F)) → sk.transform s x ≡ map (scale_row s) x
  pub predicts : (m : Model) (x : List (List F)) → sk.predict_proba m x ≡ map (row_probability m) x

-- The predictor answers with no error, each session by itself and in batches alike: as `r` does.
pub record Serves {F : Type 0} (one : SessionFeatures F → Result F)
    (batch : List (SessionFeatures F) → Result (List F)) (r : ResumePredictor F) : Type 0 where
  pub answers : (x : SessionFeatures F) → one x ≡ ok (r.predict_resume_probability x)
  pub answers_batch : (l : List (SessionFeatures F)) → batch l ≡ ok (r.predict_batch l)
  pub rowwise : IsRowwise r

module _ {F Scaler Model : Type 0} (f : Floats F) (sk : Sklearn F Scaler Model)
    (t : TreatsRows sk) where
  abbrev by_rows : (SessionFeatures F → F) → ResumePredictor F
  by_rows probability = record {
    predict_resume_probability = probability;
    predict_batch = map probability;
  }

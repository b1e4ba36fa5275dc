-- ===== src/Tests/Learning.antt =====
-- Runs of the predictors and of the training data on a short trace.
use kv_cache_tier_persistenc.Prelude.{ℕ, ◌≡◌, String, false, List, [], ◌∷◌, map, length, none}
use kv_cache_tier_persistenc.Float.Exact.{Fraction, exact}
use kv_cache_tier_persistenc.Eviction.Oracle.{trace_oracle, next_resume_after}
use kv_cache_tier_persistenc.Predictors.{Sklearn, LogisticPredictor, GbtPredictor}
use kv_cache_tier_persistenc.Training.{WorkloadEvent, session_events, label}
use kv_cache_tier_persistenc.Training.Labels.{seen, truth, label-truth}
use kv_cache_tier_persistenc.Tests.Oracles.{search_right, search_right-IsSearchsorted}

-- a model that is a number: half of it for a row with something in it
abbrev row_probability : ℕ → List Fraction → Fraction
row_probability m [] = exact.of_nat 0
row_probability m (x ∷ row) = exact.literal m 2

abbrev sk : Sklearn Fraction ℕ ℕ
sk = record {
  fit_transform = λ s x. (s, x);
  transform = λ s x. map (λ row. row) x;
  fit = λ m x labels. length labels;
  predict_proba = λ m x. map (row_probability m) x;
  coefficients = λ m. [];
  predict = λ m x. map (λ row. m) x;
  accuracy_score = λ y z. exact.of_nat 1;
  roc_auc_score = λ y p. exact.of_nat 1;
  feature_importances = λ m. none;
}

abbrev logistic : LogisticPredictor ℕ ℕ
logistic = record { resume_window = 60; model = 0; scaler = 0; is_fitted = false }

abbrev gbt : GbtPredictor ℕ
gbt = record { resume_window = 60; model = 0; is_fitted = false }

abbrev event : String → ℕ → WorkloadEvent
event action t = record {
  timestamp = t;
  user_id = "u";
  session_id = "a";
  action = action;
  token_count = 9;
}

abbrev trace : List WorkloadEvent
trace = event "start" 0 ∷ event "end" 50 ∷ event "resume" 900 ∷ event "end" 950 ∷ []

label-truth_example :
    exact.of_nat (label exact (exact.of_nat 3600) (session_events trace "a") (event "end" 50))
    ≡ truth
        (exact.of_nat 3600)
        50
        (next_resume_after search_right (trace_oracle (map seen trace)) "a" 50)
label-truth_example =
    label-truth search_right (exact.of_nat 3600) trace (event "end" 50) search_right-IsSearchsorted

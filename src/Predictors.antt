-- ===== src/Predictors.antt =====
-- eviction/predictors.py: the two learned predictors as objects that are fitted once. What they call of
-- scikit-learn is a parameter; the pickled files are left out.
pub mod Rowwise
use kv_cache_tier_persistenc.Prelude.{
  ℕ, ◌+◌, ◌-◌, String, Bool, true, false, List, [], ◌∷◌, map, if◌then◌else◌, length, not, ◌||◌,
  ◌==◌, Option, none, some,
}
use kv_cache_tier_persistenc.Result.{Result, ok, raise, runtime_error, index_error, ◌>>=◌}
use kv_cache_tier_persistenc.Dict.{Dict}
use kv_cache_tier_persistenc.Float.{Floats}
use kv_cache_tier_persistenc.Eviction.Features.{SessionFeatures, to_array, feature_names}

-- `StandardScaler` and the classifiers, on matrices as lists of rows; `predict_proba` is the column of
-- the positive class.
pub record Sklearn (F Scaler Model : Type 0) : Type 0 where
  pub fit_transform : Scaler → List (List F) → Scaler × List (List F)
  pub transform : Scaler → List (List F) → List (List F)
  pub fit : Model → List (List F) → List ℕ → Model
  pub predict_proba : Model → List (List F) → List F
  pub coefficients : Model → List F
  pub predict : Model → List (List F) → List ℕ
  pub accuracy_score : List ℕ → List ℕ → F
  pub roc_auc_score : List ℕ → List F → F
  -- `feature_importances_`, none where the class has no such attribute
  pub feature_importances : Model → Option (List F)

pub record LogisticPredictor (Scaler Model : Type 0) : Type 0 where
  pub resume_window : ℕ
  pub model : Model
  pub scaler : Scaler
  pub is_fitted : Bool

pub record GbtPredictor (Model : Type 0) : Type 0 where
  pub resume_window : ℕ
  pub model : Model
  pub is_fitted : Bool

pub record FitMetrics (F : Type 0) : Type 0 where
  pub accuracy : F
  pub auc_roc : F
  pub n_samples : ℕ
  pub n_positive : ℕ
  pub n_negative : ℕ

-- `int(y.sum())`
unfoldable pub sum_labels : List ℕ → ℕ
sum_labels [] = 0
sum_labels (y ∷ labels) = y + sum_labels labels

-- `len(set(y)) > 1`
abbrev pub has_classes : List ℕ → Bool
has_classes [] = false
has_classes (y ∷ []) = false
has_classes (y ∷ z ∷ labels) = not (y == z) || has_classes (z ∷ labels)

-- `[0]` of an array
unfoldable pub first_element : {A : Type 0} → List A → Result A
first_element [] = raise index_error
first_element (a ∷ l) = ok a

-- dict(zip(names, values))
unfoldable pub zip_names : {F : Type 0} → List String → List F → Dict F
zip_names [] values = []
zip_names (n ∷ names) [] = []
zip_names (n ∷ names) (v ∷ values) = (n, v) ∷ zip_names names values

module _ {F Scaler Model : Type 0} (f : Floats F) (sk : Sklearn F Scaler Model) where
  -- `_features_to_matrix`
  unfoldable pub features_to_matrix : List (SessionFeatures F) → List (List F)
  features_to_matrix features = map (to_array f) features

  -- the report of `fit` of a fitted model on its own data
  unfoldable pub metrics_of : Model → List (List F) → List ℕ → FitMetrics F
  unfolding sum_labels
  metrics_of model x labels = record {
    accuracy = sk.accuracy_score labels (sk.predict model x);
    auc_roc =
        if has_classes labels
        then sk.roc_auc_score labels (sk.predict_proba model x)
        else f.literal 0 1;
    n_samples = length labels;
    n_positive = sum_labels labels;
    n_negative = length labels - sum_labels labels;
  }

  module _ (p : LogisticPredictor Scaler Model) where
    unfoldable pub fit_logistic :
        List (SessionFeatures F) → List ℕ → LogisticPredictor Scaler Model × FitMetrics F
    unfolding features_to_matrix metrics_of
    fit_logistic features labels =
        let (scaler, x_scaled) = sk.fit_transform p.scaler (features_to_matrix features) in
        let model = sk.fit p.model x_scaled labels in
        (
          record p { scaler = scaler; model = model; is_fitted = true },
          metrics_of model x_scaled labels,
        )

    unfoldable pub predict_logistic : SessionFeatures F → Result F
    unfolding first_element
    predict_logistic features =
        if p.is_fitted
        then first_element
            (sk.predict_proba p.model (sk.transform p.scaler (to_array f features ∷ [])))
        else raise runtime_error

    unfoldable pub predict_batch_logistic : List (SessionFeatures F) → Result (List F)
    unfolding features_to_matrix
    predict_batch_logistic features =
        if p.is_fitted
        then ok (sk.predict_proba p.model (sk.transform p.scaler (features_to_matrix features)))
        else raise runtime_error

    unfoldable pub get_coefficients : Dict F
    unfolding zip_names
    get_coefficients = if p.is_fitted then zip_names feature_names (sk.coefficients p.model) else []

  module _ (p : GbtPredictor Model) where
    unfoldable pub fit_gbt : List (SessionFeatures F) → List ℕ → GbtPredictor Model × FitMetrics F
    unfolding features_to_matrix metrics_of
    fit_gbt features labels =
        let x = features_to_matrix features in
        let model = sk.fit p.model x labels in
        (record p { model = model; is_fitted = true }, metrics_of model x labels)

    unfoldable pub predict_gbt : SessionFeatures F → Result F
    unfolding first_element
    predict_gbt features =
        if p.is_fitted
        then first_element (sk.predict_proba p.model (to_array f features ∷ []))
        else raise runtime_error

    unfoldable pub predict_batch_gbt : List (SessionFeatures F) → Result (List F)
    unfolding features_to_matrix
    predict_batch_gbt features =
        if p.is_fitted
        then ok (sk.predict_proba p.model (features_to_matrix features))
        else raise runtime_error

    abbrev pub named : Option (List F) → Dict F
    named none = []
    named (some values) = zip_names feature_names values

    unfoldable pub get_feature_importances : Dict F
    unfolding zip_names
    get_feature_importances = if p.is_fitted then named (sk.feature_importances p.model) else []

-- ===== src/Eviction/Oracle/Classifier.antt =====
-- eviction/oracle.py: `OracleClassifierPolicy`, the perfect classifier of what returns within the
-- window, with a tie-break. The policy keeps no state.
use kv_cache_tier_persistenc.Prelude.{ℕ, String, false, Option, none, some, List, if◌then◌else◌}
use kv_cache_tier_persistenc.Dict.{Dict}
use kv_cache_tier_persistenc.Float.{Floats}
use kv_cache_tier_persistenc.Index.{CacheEntry}
use kv_cache_tier_persistenc.Eviction.Policy.{EvictionPolicy}
use kv_cache_tier_persistenc.Eviction.Scores.{score_all, select_least}
use kv_cache_tier_persistenc.Eviction.Oracle.{TraceOracle, next_access}

module _ {F : Type 0} (f : Floats F) where
  -- 1.0 if dnext <= self.resume_window_seconds else 0.0
  unfoldable pub indicator : F → F → F
  indicator window dnext = if f.lt window dnext then f.of_nat 0 else f.of_nat 1

  -- 1e-6 / (1.0 + dnext / 3600.0)
  unfoldable pub tie : F → F
  tie dnext = f.div (f.literal 1 1000000) (f.add (f.of_nat 1) (f.div dnext (f.of_nat 3600)))

  -- The score for a next access: where there is none, both summands are 0.0.
  unfoldable pub score_at : F → ℕ → Option ℕ → F
  unfolding indicator tie
  score_at window now none = f.add (f.of_nat 0) (f.of_nat 0)
  score_at window now (some next) =
      let dnext = f.sub (f.of_nat next) (f.of_nat now) in f.add (indicator window dnext) (tie dnext)

module _ {F : Type 0} (f : Floats F) (searchsorted : List ℕ → ℕ → ℕ) (oracle : TraceOracle)
    (resume_window_seconds : F) where
  unfoldable pub get_scores : ℕ → Dict CacheEntry → Dict F
  unfolding score_at
  get_scores now entries =
      score_all
        (λ sid e. score_at f resume_window_seconds now (next_access searchsorted oracle now sid e))
        entries

  unfoldable pub select_victim : ℕ → Dict CacheEntry → Option String
  unfolding get_scores
  select_victim now entries = select_least f.lt (get_scores now) entries

  unfoldable pub oracle_classifier : EvictionPolicy (Unit {0})
  oracle_classifier = record {
    on_access = λ s now sid e. s;
    on_insert = λ s now sid e. s;
    on_remove = λ s sid. s;
    select_victim = λ s now entries. select_victim now entries;
    should_evict = λ s now sid e. false;
  }

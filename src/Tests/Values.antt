-- ===== src/Tests/Values.antt =====
-- Runs of the cost model and of the policies that score, and instances of what is proved of them.
use kv_cache_tier_persistenc.Prelude.{
  ℕ, ◌≡◌, refl, inl, inr, String, Option, none, some, List, [], ◌∷◌, map, str_eq, arith,
}
use kv_cache_tier_persistenc.Result.{ok}
use kv_cache_tier_persistenc.Dict
use kv_cache_tier_persistenc.Dict.{Dict}
use kv_cache_tier_persistenc.Float.{MathModule}
use kv_cache_tier_persistenc.Float.Exact.{Fraction, exact, exact-IsOrdered}
use kv_cache_tier_persistenc.Tiers.Storage.{hot}
use kv_cache_tier_persistenc.Index.{CacheEntry}
use kv_cache_tier_persistenc.CostModel.{CostModel, breakeven_tokens}
use kv_cache_tier_persistenc.CostModel as Cost
use kv_cache_tier_persistenc.CostModel.Breakeven.{Found}
use kv_cache_tier_persistenc.CostModel.Economics.{dearer, breakeven_tokens_least}
use kv_cache_tier_persistenc.Eviction.Features.{SessionFeatures, history_of}
use kv_cache_tier_persistenc.Eviction.Features.History.{
  Call, run, log, last_accesses, history_of-run,
}
use kv_cache_tier_persistenc.Eviction.Scores.{ResumePredictor}
use kv_cache_tier_persistenc.Eviction.Scores.Least.{IsLeastScored}
use kv_cache_tier_persistenc.Eviction.ValueDensity
use kv_cache_tier_persistenc.Eviction.ValueDensity.{ValueDensityPolicy, value_density}
use kv_cache_tier_persistenc.Eviction.ValueDensity.Victim.{select_victim_densest}
use kv_cache_tier_persistenc.Eviction.SpaceTime
use kv_cache_tier_persistenc.Eviction.SpaceTime.{SpaceTimeDensityPolicy, Gaps, space_time_density}
use kv_cache_tier_persistenc.Eviction.SpaceTime.Victim.{select_victim_cheapest}
use kv_cache_tier_persistenc.Eviction.Predictive
use kv_cache_tier_persistenc.Eviction.Predictive.{PredictiveEvictionPolicy}
use kv_cache_tier_persistenc.Eviction.Predictive.Victim.{score_with, select_victim_unlikely}
use kv_cache_tier_persistenc.Tests.Data.{entry}

breakeven_tokens_least_example :
    (o : Option ℕ) × (breakeven_tokens exact (Cost.default exact) "warm" 300000 ≡ ok o)
    × Found (dearer (Cost.default exact) "warm") 300000 o
breakeven_tokens_least_example =
    breakeven_tokens_least (Cost.default exact) "warm" 300000 (inr (inl refl)) (omega arith)

abbrev calls : List Call
calls =
    record { user_id = "u"; access = record { session_id = "a"; timestamp = 1; token_count = 3 } }
    ∷ record { user_id = "w"; access = record { session_id = "b"; timestamp = 2; token_count = 5 } }
    ∷ record { user_id = "u"; access = record { session_id = "a"; timestamp = 4; token_count = 7 } }
    ∷ []

no_history : history_of [] "u" ≡ last_accesses []
unfolding Dict.get last_accesses
no_history = refl

history_of-run_example : history_of (run [] calls) "u" ≡ last_accesses (log [] "u" calls)
history_of-run_example = history_of-run [] [] "u" calls no_history

-- a predictor by the length of a session, and functions of `math` that are cut short
abbrev by_length : SessionFeatures Fraction → Fraction
by_length s = record { num = s.token_count; below = 99 }

abbrev predictor : ResumePredictor Fraction
predictor = record { predict_resume_probability = by_length; predict_batch = map by_length }

abbrev math_module : MathModule Fraction
math_module = record {
  exp_neg = λ x. exact.div (exact.of_nat 1) (exact.add (exact.of_nat 1) x);
  log_two = exact.literal 693 1000;
}

abbrev density_policy : ValueDensityPolicy Fraction
density_policy = record {
  predictor = some predictor;
  cost_model = Cost.default exact;
  admission_threshold = exact.of_nat 0;
}

abbrev rest : Dict CacheEntry
rest = ("b", entry "b" hot 5 2) ∷ []

abbrev first : String × CacheEntry
first = ("a", entry "a" hot 10 3)

candidates-IsUnique : Dict.IsUnique (first ∷ rest)
unfolding Dict.get
candidates-IsUnique = (refl, (refl, tt))

select_victim_densest_example :
    (v : String) × (ValueDensity.select_victim exact math_module density_policy [] 20 (first ∷ rest)
      ≡ some v)
    × IsLeastScored exact.lt
        (λ sid e. value_density exact math_module density_policy [] 20 e)
        (first ∷ rest)
        v
select_victim_densest_example =
    select_victim_densest exact math_module density_policy [] 20 first rest exact-IsOrdered
      (λ l. refl) candidates-IsUnique

abbrev space_time : SpaceTimeDensityPolicy Fraction
space_time = record {
  predictor = some predictor;
  cost_model = Cost.default exact;
  prior_gap_seconds = exact.of_nat 7200;
  ema_alpha = exact.literal 3 10;
}

abbrev gaps : Gaps Fraction
gaps = record {
  features = [];
  gap_ema = ("a", exact.of_nat 30) ∷ [];
  last_seen = ("a", 10) ∷ ("b", 5) ∷ [];
}

select_victim_cheapest_example :
    (v : String) × (SpaceTime.select_victim exact space_time gaps 20 (first ∷ rest) ≡ some v)
    × IsLeastScored exact.lt (space_time_density exact space_time gaps 20) (first ∷ rest) v
select_victim_cheapest_example =
    select_victim_cheapest exact space_time gaps 20 first rest exact-IsOrdered (λ l. refl)
      candidates-IsUnique

abbrev predictive : PredictiveEvictionPolicy Fraction
predictive = record {
  strategy = "heuristic";
  alpha = exact.literal 4 10;
  beta = exact.literal 4 10;
  gamma = exact.literal 2 10;
  decay_half_life = 1800;
  predictor = none;
}

select_victim_unlikely_example :
    (v : String) × (Predictive.select_victim exact math_module predictive [] 20 (first ∷ rest)
      ≡ some v)
    × IsLeastScored exact.lt
        (score_with exact math_module predictive
          (str_eq "heuristic" "heuristic")
          none
          []
          20
          (first ∷ rest))
        (first ∷ rest)
        v
select_victim_unlikely_example =
    select_victim_unlikely exact math_module predictive [] 20 first rest exact-IsOrdered tt
      candidates-IsUnique

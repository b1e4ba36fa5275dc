-- ===== src/Tests/Oracles.antt =====
-- Runs of the oracle policies on a short trace, with a search written out for numpy's.
use kv_cache_tier_persistenc.Prelude.{
  none, ℕ, suc, ◌≤◌, ◌≡◌, refl, inl, inr, String, some, List, [], ◌∷◌, leb, if◌then◌else◌, arith,
  Bool-cases,
}
use kv_cache_tier_persistenc.Dict
use kv_cache_tier_persistenc.Dict.{Dict}
use kv_cache_tier_persistenc.Float.Exact.{Fraction, exact}
use kv_cache_tier_persistenc.Tiers.Storage.{hot}
use kv_cache_tier_persistenc.Index.{CacheEntry}
use kv_cache_tier_persistenc.CostModel as Cost
use kv_cache_tier_persistenc.Eviction.Scores.{score_all, select_least}
use kv_cache_tier_persistenc.Eviction.Scores.Least.{IsLeastScored}
use kv_cache_tier_persistenc.Eviction.MinKey.{min_key, min_from}
use kv_cache_tier_persistenc.Eviction.Oracle.{
  TraceEvent, trace_oracle, later, sooner, next_access, next_in, next_resume_after, gather,
  add_event, sort_values, sort_times, insert_time,
}
use kv_cache_tier_persistenc.Eviction.Oracle.Trace.{resumes, IsNext, IsSearchsorted, AllFrom}
use kv_cache_tier_persistenc.Eviction.Oracle.Trace.Built.{next_resume_after-IsNext}
use kv_cache_tier_persistenc.Eviction.Oracle.Belady
use kv_cache_tier_persistenc.Eviction.Oracle.Belady.{select_victim_farthest}
use kv_cache_tier_persistenc.Eviction.Oracle.Classifier
use kv_cache_tier_persistenc.Eviction.Oracle.Agreement.{classifier-belady}
use kv_cache_tier_persistenc.Float.{MathModule}
use kv_cache_tier_persistenc.Eviction.Policy.{IsSound}
use kv_cache_tier_persistenc.Eviction.Lru.{lru}
use kv_cache_tier_persistenc.Eviction.Ttl.{ttl, defaults}
use kv_cache_tier_persistenc.Eviction.Predictive.{PredictiveEvictionPolicy, predictive_policy}
use kv_cache_tier_persistenc.Eviction.ValueDensity.{ValueDensityPolicy, value_density_policy}
use kv_cache_tier_persistenc.Eviction.SpaceTime.{SpaceTimeDensityPolicy, space_time_policy}
use kv_cache_tier_persistenc.Eviction.Oracle.Belady.{belady}
use kv_cache_tier_persistenc.Eviction.Oracle.Classifier.{oracle_classifier}
use kv_cache_tier_persistenc.Eviction.Oracle.SpaceTime.{oracle_space_time}
use kv_cache_tier_persistenc.Eviction.Sound.{policies-IsSound}
use kv_cache_tier_persistenc.Tests.Data.{entry}

pub search_right : List ℕ → ℕ → ℕ
search_right [] t = 0
search_right (s ∷ l) t = let rest = search_right l t in if leb s t then suc rest else 0

from_later : (n m : ℕ) (l : List ℕ) → n ≤ m → AllFrom m l → AllFrom n l
from_later n m [] le h = tt
from_later n m (s ∷ l) le h = (omega arith, from_later n m l le h.1)

pub search_right-IsSearchsorted : IsSearchsorted search_right
unfolding search_right
search_right-IsSearchsorted [] t o = (tt, tt)
search_right-IsSearchsorted (s ∷ l) t o = elim (Bool-cases (leb s t)) [
  | inl q ↦ let (u, f) = search_right-IsSearchsorted l t o.1 in rw q ((ground arith, u), f)
  | inr q ↦ rw q (tt, (ground arith, from_later (suc t) s l (ground arith) o.0))
]

abbrev resume : String → ℕ → TraceEvent
resume sid t = record { action = "resume"; session_id = sid; timestamp = t }

abbrev events : List TraceEvent
events =
    resume "a" 90
    ∷ record { action = "start"; session_id = "b"; timestamp = 15 }
    ∷ resume "a" 30
    ∷ resume "b" 60
    ∷ []

abbrev first : String × CacheEntry
first = ("a", entry "a" hot 10 3)

abbrev rest : Dict CacheEntry
rest = ("b", entry "b" hot 5 2) ∷ []

candidates-IsUnique : Dict.IsUnique (first ∷ rest)
unfolding Dict.get
candidates-IsUnique = (refl, (refl, tt))

next_of_a : next_resume_after search_right (trace_oracle events) "a" 20 ≡ some 30
unfolding search_right next_resume_after next_in trace_oracle gather add_event sort_values
    sort_times insert_time Dict.get Dict.put
next_of_a = refl

next_resume_after-IsNext_example :
    IsNext (resumes events "a") 20 (next_resume_after search_right (trace_oracle events) "a" 20)
next_resume_after-IsNext_example =
    next_resume_after-IsNext search_right events "a" 20 search_right-IsSearchsorted

belady_picks : Belady.select_victim search_right (trace_oracle events) 20 (first ∷ rest) ≡ some "b"
unfolding search_right next_resume_after next_in trace_oracle gather add_event sort_values
    sort_times insert_time Dict.get Dict.put Belady.select_victim select_least score_all min_key
    min_from sooner
belady_picks = refl

select_victim_farthest_example :
    (v : String) × (Belady.select_victim search_right (trace_oracle events) 20 (first ∷ rest)
      ≡ some v)
    × IsLeastScored later (next_access search_right (trace_oracle events) 20) (first ∷ rest) v
select_victim_farthest_example =
    select_victim_farthest search_right (trace_oracle events) 20 first rest candidates-IsUnique

classifier-belady_example :
    Classifier.select_victim exact search_right
      (trace_oracle events)
      (exact.of_nat 3600)
      20
      (first ∷ rest)
    ≡ Belady.select_victim search_right (trace_oracle events) 20 (first ∷ rest)
classifier-belady_example =
    classifier-belady search_right events (exact.of_nat 3600) 20 (first ∷ rest)
      search_right-IsSearchsorted

abbrev pub math_module : MathModule Fraction
math_module = record {
  exp_neg = λ x. exact.div (exact.of_nat 1) (exact.add (exact.of_nat 1) x);
  log_two = exact.literal 693 1000;
}

abbrev predictive : PredictiveEvictionPolicy Fraction
predictive = record {
  strategy = "heuristic";
  alpha = exact.literal 4 10;
  beta = exact.literal 4 10;
  gamma = exact.literal 2 10;
  decay_half_life = 1800;
  predictor = none;
}

abbrev value : ValueDensityPolicy Fraction
value = record {
  predictor = none;
  cost_model = Cost.default exact;
  admission_threshold = exact.of_nat 0;
}

abbrev density : SpaceTimeDensityPolicy Fraction
density = record {
  predictor = none;
  cost_model = Cost.default exact;
  prior_gap_seconds = exact.of_nat 7200;
  ema_alpha = exact.literal 3 10;
}

policies-IsSound_example :
    IsSound lru
    × IsSound (ttl defaults)
    × IsSound (predictive_policy exact math_module predictive)
    × IsSound (value_density_policy exact math_module value)
    × IsSound (space_time_policy exact density)
    × IsSound (belady search_right (trace_oracle events))
    × IsSound (oracle_classifier exact search_right (trace_oracle events) (exact.of_nat 3600))
    × IsSound (oracle_space_time exact search_right (trace_oracle events) (Cost.default exact))
policies-IsSound_example =
    policies-IsSound exact math_module defaults predictive value density search_right
      (trace_oracle events) (exact.of_nat 3600) (Cost.default exact)

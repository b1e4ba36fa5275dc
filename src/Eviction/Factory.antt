-- ===== src/Eviction/Factory.antt =====
-- eviction/__init__.py: `create_eviction_policy`, and the policy that it returned as one policy of a manager:
-- each hook goes to the class. `set_predictor` and `policy_name` of the policies are here too.
pub mod Created
use Prim.Native.Char.{code}
use Prim.Native.String.{◌++◌ as joined, [] as empty, ◌∷◌ as before}
use kv_cache_tier_persistenc.Prelude.{
  ℕ, String, Bool, Option, none, some, List, [], str_eq, ◌==◌, if◌then◌else◌,
}
use kv_cache_tier_persistenc.Result.{Result, ok, raise, value_error}
use kv_cache_tier_persistenc.Dict
use kv_cache_tier_persistenc.Dict.{Dict}
use kv_cache_tier_persistenc.Float.{Floats, MathModule}
use kv_cache_tier_persistenc.CostModel
use kv_cache_tier_persistenc.CostModel.{CostModel}
use kv_cache_tier_persistenc.Index.{CacheEntry}
use kv_cache_tier_persistenc.Eviction.Policy.{EvictionPolicy}
use kv_cache_tier_persistenc.Eviction.Features.{FeatureExtractor}
use kv_cache_tier_persistenc.Eviction.Scores.{ResumePredictor}
use kv_cache_tier_persistenc.Eviction.Lru.{lru}
use kv_cache_tier_persistenc.Eviction.Ttl.{TtlSeconds, defaults, ttl}
use kv_cache_tier_persistenc.Eviction.Predictive.{PredictiveEvictionPolicy, predictive_policy}
use kv_cache_tier_persistenc.Eviction.ValueDensity.{ValueDensityPolicy, value_density_policy}
use kv_cache_tier_persistenc.Eviction.SpaceTime.{SpaceTimeDensityPolicy, Gaps, space_time_policy}

-- an object of one of the classes, with what it was made with and its state
pub data Policy (F : Type 0) : Type 0 where
  of_lru : List String → Policy F
  of_ttl : TtlSeconds → List String → Policy F
  of_predictive : PredictiveEvictionPolicy F → FeatureExtractor → Policy F
  of_value_density : ValueDensityPolicy F → FeatureExtractor → Policy F
  of_space_time : SpaceTimeDensityPolicy F → Gaps F → Policy F

-- the keyword arguments
pub record Options (F : Type 0) : Type 0 where
  pub ttl_seconds : Option (Dict ℕ)
  pub alpha : Option F
  pub beta : Option F
  pub gamma : Option F
  pub decay_half_life : Option ℕ
  pub admission_threshold : Option F
  pub prior_gap_seconds : Option F
  pub ema_alpha : Option F
  pub cost_model : Option (CostModel F)

-- kwargs.get(name, default)
abbrev pub given_or {ℓ} : {A : Type ℓ} → Option A → A → A
given_or none d = d
given_or (some a) d = a

-- `TTLEvictionPolicy.__init__`
abbrev pub ttl_for : Dict ℕ → TtlSeconds
ttl_for d = record {
  hot_ttl = given_or (Dict.get d "hot") defaults.hot_ttl;
  warm_ttl = given_or (Dict.get d "warm") defaults.warm_ttl;
  cold_ttl = given_or (Dict.get d "cold") defaults.cold_ttl;
}

module _ {F : Type 0} (f : Floats F) where
  abbrev pub new_predictive : Options F → PredictiveEvictionPolicy F
  new_predictive o = record {
    strategy = "heuristic";
    alpha = given_or o.alpha (f.literal 4 10);
    beta = given_or o.beta (f.literal 4 10);
    gamma = given_or o.gamma (f.literal 2 10);
    decay_half_life = given_or o.decay_half_life 1800;
    predictor = none;
  }

  abbrev pub new_value_density : Options F → ValueDensityPolicy F
  new_value_density o = record {
    predictor = none;
    cost_model = given_or o.cost_model (CostModel.default f);
    admission_threshold = given_or o.admission_threshold (f.literal 0 1);
  }

  abbrev pub new_space_time : Options F → SpaceTimeDensityPolicy F
  new_space_time o = record {
    predictor = none;
    cost_model = given_or o.cost_model (CostModel.default f);
    prior_gap_seconds = given_or o.prior_gap_seconds (f.literal 7200 1);
    ema_alpha = given_or o.ema_alpha (f.literal 3 10);
  }

  abbrev pub no_gaps : Gaps F
  no_gaps = record { features = []; gap_ema = []; last_seen = [] }

  unfoldable pub create_eviction_policy : String → Options F → Result (Policy F)
  create_eviction_policy name o =
      if str_eq name "lru"
      then ok (of_lru [])
      else if str_eq name "ttl"
      then ok (of_ttl (ttl_for (given_or o.ttl_seconds [])) [])
      else if str_eq name "predictive"
      then ok (of_predictive (new_predictive o) [])
      else if str_eq name "value_density"
      then ok (of_value_density (new_value_density o) [])
      else if str_eq name "space_time"
      then ok (of_space_time (new_space_time o) no_gaps)
      else raise value_error

-- `name.split("_")[0]`
unfoldable pub first_word : String → String
first_word empty = empty
first_word (before c s) = let rest = first_word s in if code c == 95 then empty else before c rest

module _ {F : Type 0} (f : Floats F) (model_name : ResumePredictor F → String) where
  -- `set_predictor`; the LRU and the TTL policy have none
  unfoldable pub set_predictor : Policy F → ResumePredictor F → Policy F
  unfolding first_word
  set_predictor (of_lru s) p = of_lru s
  set_predictor (of_ttl c s) p = of_ttl c s
  set_predictor (of_predictive c s) p =
      of_predictive (record c { predictor = some p; strategy = first_word (model_name p) }) s
  set_predictor (of_value_density c s) p = of_value_density (record c { predictor = some p }) s
  set_predictor (of_space_time c s) p = of_space_time (record c { predictor = some p }) s

  abbrev pub name_or_unknown : Option (ResumePredictor F) → String
  name_or_unknown none = "unknown"
  name_or_unknown (some p) = model_name p

  unfoldable pub policy_name : Policy F → String
  policy_name (of_lru s) = "lru"
  policy_name (of_ttl c s) = "ttl"
  policy_name (of_predictive c s) = joined "predictive_" c.strategy
  policy_name (of_value_density c s) = joined "value_density_" (
      joined (name_or_unknown c.predictor)
        (if f.lt (f.literal 0 1) c.admission_threshold then "_ac" else ""))
  policy_name (of_space_time c s) = joined "space_time_" (name_or_unknown c.predictor)

module _ {F : Type 0} (f : Floats F) (math : MathModule F) where
  -- What a class does, and how its state goes back into the object.
  unfoldable pub on_access : Policy F → ℕ → String → CacheEntry → Policy F
  on_access (of_lru s) now sid e = of_lru (lru.on_access s now sid e)
  on_access (of_ttl c s) now sid e = of_ttl c ((ttl c).on_access s now sid e)
  on_access (of_predictive c s) now sid e =
      of_predictive c ((predictive_policy f math c).on_access s now sid e)
  on_access (of_value_density c s) now sid e =
      of_value_density c ((value_density_policy f math c).on_access s now sid e)
  on_access (of_space_time c s) now sid e =
      of_space_time c ((space_time_policy f c).on_access s now sid e)

  unfoldable pub on_insert : Policy F → ℕ → String → CacheEntry → Policy F
  on_insert (of_lru s) now sid e = of_lru (lru.on_insert s now sid e)
  on_insert (of_ttl c s) now sid e = of_ttl c ((ttl c).on_insert s now sid e)
  on_insert (of_predictive c s) now sid e =
      of_predictive c ((predictive_policy f math c).on_insert s now sid e)
  on_insert (of_value_density c s) now sid e =
      of_value_density c ((value_density_policy f math c).on_insert s now sid e)
  on_insert (of_space_time c s) now sid e =
      of_space_time c ((space_time_policy f c).on_insert s now sid e)

  unfoldable pub on_remove : Policy F → String → Policy F
  on_remove (of_lru s) sid = of_lru (lru.on_remove s sid)
  on_remove (of_ttl c s) sid = of_ttl c ((ttl c).on_remove s sid)
  on_remove (of_predictive c s) sid = of_predictive c ((predictive_policy f math c).on_remove s sid)
  on_remove (of_value_density c s) sid =
      of_value_density c ((value_density_policy f math c).on_remove s sid)
  on_remove (of_space_time c s) sid = of_space_time c ((space_time_policy f c).on_remove s sid)

  unfoldable pub select_victim : Policy F → ℕ → Dict CacheEntry → Option String
  select_victim (of_lru s) = lru.select_victim s
  select_victim (of_ttl c s) = (ttl c).select_victim s
  select_victim (of_predictive c s) = (predictive_policy f math c).select_victim s
  select_victim (of_value_density c s) = (value_density_policy f math c).select_victim s
  select_victim (of_space_time c s) = (space_time_policy f c).select_victim s

  unfoldable pub should_evict : Policy F → ℕ → String → CacheEntry → Bool
  should_evict (of_lru s) = lru.should_evict s
  should_evict (of_ttl c s) = (ttl c).should_evict s
  should_evict (of_predictive c s) = (predictive_policy f math c).should_evict s
  should_evict (of_value_density c s) = (value_density_policy f math c).should_evict s
  should_evict (of_space_time c s) = (space_time_policy f c).should_evict s

  abbrev pub created : EvictionPolicy (Policy F)
  created = record {
    on_access = on_access;
    on_insert = on_insert;
    on_remove = on_remove;
    select_victim = select_victim;
    should_evict = should_evict;
  }

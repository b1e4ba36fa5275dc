-- ===== src/Metrics.antt =====
-- utils/metrics.py: `MetricsCollector` and its `Timer`. What it calls of numpy is a parameter, and so are
-- the readings of `time.perf_counter`. The lock is left out.
pub mod Log
use Prim.Native.Nat.{Ordering}
use Prim.Native.String.{◌++◌ as joined, compare}
use kv_cache_tier_persistenc.Prelude.{
  ℕ, String, Bool, true, false, Option, none, some, List, [], ◌∷◌, ◌++◌, map, is_empty, length,
  if◌then◌else◌,
}
use kv_cache_tier_persistenc.Dict
use kv_cache_tier_persistenc.Dict.{Dict, put, keys}
use kv_cache_tier_persistenc.Float.{Floats}

-- `float(np.mean(a))`, `float(np.percentile(a, n))`, `float(np.min(a))` and `float(np.max(a))`
pub record Numpy (F : Type 0) : Type 0 where
  pub mean : List F → F
  pub percentile : List F → ℕ → F
  pub least : List F → F
  pub greatest : List F → F

-- `self._metrics`
abbrev pub MetricsCollector : Type 0 → Type 0
MetricsCollector F = Dict (List F)

pub record Stats (F : Type 0) : Type 0 where
  pub count : ℕ
  pub mean : F
  pub p50 : F
  pub p95 : F
  pub p99 : F
  pub least : F
  pub greatest : F

-- `j < k` on texts
abbrev pub text_lt : String → String → Bool
text_lt j k = elim (compare j k) [ Ordering.lt ↦ true | _ ↦ false ]

-- `sorted(tags.items())`: the keys of a dict differ, so the pairs are ordered by them
unfoldable pub insert_tag : String × String → Dict String → Dict String
insert_tag (k, v) [] = (k, v) ∷ []
insert_tag (k, v) ((j, w) ∷ tags) =
    let rest = insert_tag (k, v) tags in
    if text_lt j k then (j, w) ∷ rest else (k, v) ∷ (j, w) ∷ tags

unfoldable pub sort_tags : Dict String → Dict String
unfolding insert_tag
sort_tags [] = []
sort_tags (t ∷ tags) = insert_tag t (sort_tags tags)

-- `",".join(f"{k}={v}" for k, v in ...)`
unfoldable pub tag_text : Dict String → String
tag_text [] = ""
tag_text ((k, v) ∷ []) = joined k (joined "=" v)
tag_text ((k, v) ∷ t ∷ tags) = joined k (joined "=" (joined v (joined "," (tag_text (t ∷ tags)))))

-- an absent argument, none, is an empty dict
unfoldable pub metric_name : String → Dict String → String
unfolding sort_tags tag_text
metric_name name tags =
    if is_empty tags
    then name
    else joined name (joined "[" (joined (tag_text (sort_tags tags)) "]"))

-- `self._metrics.get(name, [])`
abbrev pub values_or {ℓ} : {A : Type ℓ} → Option (List A) → List A
values_or none = []
values_or (some l) = l

module _ {F : Type 0} (m : MetricsCollector F) where
  unfoldable pub append_value : String → F → MetricsCollector F
  append_value key value = put m key (values_or (Dict.get m key) ++ value ∷ [])

  -- `record`
  unfoldable pub record_metric : String → F → Dict String → MetricsCollector F
  unfolding metric_name append_value
  record_metric name value tags = append_value (metric_name name tags) value

abbrev pub reset : {F : Type 0} → MetricsCollector F → MetricsCollector F
reset m = []

module _ {F : Type 0} (f : Floats F) where
  -- the timer: its name, its tags and the reading when the block was entered
  pub record Timer : Type 0 where
    pub name : String
    pub tags : Dict String
    pub start_time : F

  abbrev pub enter : Timer → F → Timer
  enter t now = record t { start_time = now }

  unfoldable pub exit : Timer → F → MetricsCollector F → MetricsCollector F
  unfolding record_metric
  exit t now m = record_metric m t.name (f.sub now t.start_time) t.tags

  abbrev pub record_timer : String → Dict String → Timer
  record_timer name tags = record { name = name; tags = tags; start_time = f.literal 0 1 }

  module _ (np : Numpy F) where
    unfoldable pub stats_of : List F → Stats F
    stats_of values =
        if is_empty values
        then record {
          count = 0;
          mean = f.literal 0 1;
          p50 = f.literal 0 1;
          p95 = f.literal 0 1;
          p99 = f.literal 0 1;
          least = f.literal 0 1;
          greatest = f.literal 0 1;
        }
        else record {
          count = length values;
          mean = np.mean values;
          p50 = np.percentile values 50;
          p95 = np.percentile values 95;
          p99 = np.percentile values 99;
          least = np.least values;
          greatest = np.greatest values;
        }

    unfoldable pub get_stats : MetricsCollector F → String → Stats F
    unfolding stats_of
    get_stats m name = stats_of (values_or (Dict.get m name))

    -- `{name: self.get_stats(name) for name in names}`
    unfoldable pub stats_for : MetricsCollector F → List String → Dict (Stats F)
    unfolding get_stats
    stats_for m [] = []
    stats_for m (name ∷ names) = (name, get_stats m name) ∷ stats_for m names

    unfoldable pub get_all_stats : MetricsCollector F → Dict (Stats F)
    unfolding stats_for
    get_all_stats m = stats_for m (keys m)

-- `to_dict`: the lists are copied
abbrev pub to_dict : {F : Type 0} → MetricsCollector F → Dict (List F)
to_dict m = map (λ e. (e.0, map (λ v. v) e.1)) m

-- ===== src/Metrics/Log.antt =====
-- utils/metrics.py: the collector against the plain list of what was recorded.
use mathlib.Core.Option
use kv_cache_tier_persistenc.Prelude.{
  String, ◌≡◌, refl, ap, ◌∙◌, Option, none, some, List, [], ◌∷◌, ◌++◌, is_empty, map, str_eq,
  eq_iff, arith, if◌then◌else◌,
}
use kv_cache_tier_persistenc.Dict
use kv_cache_tier_persistenc.Dict.{Dict, put, keys, get-put}
use kv_cache_tier_persistenc.Float.{Floats}
use kv_cache_tier_persistenc.Metrics.{
  Numpy, MetricsCollector, to_dict, metric_name, values_or, append_value, record_metric, stats_of,
  get_stats, stats_for, get_all_stats,
}

-- One call of `record`.
pub record Call (F : Type 0) : Type 0 where
  pub name : String
  pub tags : Dict String
  pub value : F

module _ {F : Type 0} where
  -- the collector after calls, the last of them first
  unfoldable pub after : List (Call F) → MetricsCollector F
  after [] = []
  after (c ∷ calls) = record_metric (after calls) c.name c.value c.tags

  -- what the calls recorded under a key, in the order in which they came
  unfoldable pub recorded_under : String → List (Call F) → List F
  recorded_under key [] = []
  recorded_under key (c ∷ calls) =
      let before = recorded_under key calls in
      if str_eq (metric_name c.name c.tags) key then before ++ c.value ∷ [] else before

  abbrev pub unless_empty : List F → Option (List F)
  unless_empty [] = none
  unless_empty (v ∷ l) = some (v ∷ l)

  values_or-unless_empty : (l : List F) → values_or (unless_empty l) ≡ l
  values_or-unless_empty [] = refl
  values_or-unless_empty (v ∷ l) = refl

  some-append : (l : List F) (v : F) → some (l ++ v ∷ []) ≡ unless_empty (l ++ v ∷ [])
  some-append [] v = refl
  some-append (w ∷ l) v = refl

  get-append_value :
      (m : MetricsCollector F) (key j : String) (v : F)
      → Dict.get (append_value m key v) j
        ≡ (if str_eq key j then some (values_or (Dict.get m j) ++ v ∷ []) else Dict.get m j)
  unfolding append_value
  get-append_value m key j v =
      ground (arith, eq_iff key j, get-put m key j (values_or (Dict.get m key) ++ v ∷ []))

  pub get-after :
      (key : String) (calls : List (Call F))
      → Dict.get (after calls) key ≡ unless_empty (recorded_under key calls)
  unfolding after recorded_under record_metric Dict.get
  get-after key [] = refl
  get-after key (c ∷ calls) =
      let ih = get-after key calls in
      let old = recorded_under key calls in
      ground (
        arith,
        ih,
        get-append_value (after calls) (metric_name c.name c.tags) key c.value,
        some-append old c.value,
        values_or-unless_empty old,
      )

  map_same : (l : List F) → map (λ v. v) l ≡ l
  map_same [] = refl
  map_same (v ∷ l) = ap (λ r. v ∷ r) (map_same l)

  to_dict_same : (m : MetricsCollector F) → to_dict m ≡ m
  to_dict_same [] = refl
  to_dict_same ((k, l) ∷ m) = cc (map_same l, to_dict_same m)

  module _ (f : Floats F) (np : Numpy F) where
    get-stats_for :
        (m d : MetricsCollector F) (key : String)
        → Dict.get (stats_for f np m (keys d)) key
          ≡ Option.map (λ l. get_stats f np m key) (Dict.get d key)
    unfolding stats_for Dict.get
    get-stats_for m [] key = refl
    get-stats_for m ((k, l) ∷ d) key = ground (arith, eq_iff k key, get-stats_for m d key)

    map-unless_empty :
        {A : Type 0} (l : List F) (a : A)
        → Option.map (λ l. a) (unless_empty l) ≡ (if is_empty l then none else some a)
    map-unless_empty [] a = refl
    map-unless_empty (v ∷ l) a = refl

    get_stats-recorded :
        (calls : List (Call F)) (key : String)
        → get_stats f np (after calls) key ≡ stats_of f np (recorded_under key calls)
    unfolding get_stats
    get_stats-recorded calls key =
        ap (λ o. stats_of f np (values_or o)) (get-after key calls)
        ∙ ap (stats_of f np) (values_or-unless_empty (recorded_under key calls))

    -- After any calls of `record`, the dict of the collector has under each key the values that were
    -- recorded under it, in the order of the calls, and no key under which none was; `get_stats` gives
    -- the statistics of these values; `get_all_stats` gives them for just the keys that have some.
    pub get_stats-after :
        (calls : List (Call F)) (key : String)
        → (Dict.get (to_dict (after calls)) key ≡ unless_empty (recorded_under key calls))
          × (get_stats f np (after calls) key ≡ stats_of f np (recorded_under key calls))
          × (Dict.get (get_all_stats f np (after calls)) key ≡ (
              if is_empty (recorded_under key calls)
              then none
              else some (stats_of f np (recorded_under key calls))))
    unfolding get_all_stats
    get_stats-after calls key =
        let l = recorded_under key calls in
        let one = get_stats-recorded calls key in
        (
          ap (λ m. Dict.get m key) (to_dict_same (after calls)) ∙ get-after key calls,
          one,
          get-stats_for (after calls) (after calls) key
              ∙ ap (Option.map (λ r. get_stats f np (after calls) key)) (get-after key calls)
              ∙ map-unless_empty l (get_stats f np (after calls) key)
              ∙ ap (λ x. if is_empty l then none else some x) one,
        )

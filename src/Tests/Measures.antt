-- ===== src/Tests/Measures.antt =====
-- Runs of the metric collector, and of the safetensors format on a file with two layers.
use kv_cache_tier_persistenc.Prelude.{
  ℕ, ◌≡◌, refl, none, some, List, [], ◌∷◌, length, is_empty, ltb, ◌==◌, if◌then◌else◌,
}
use kv_cache_tier_persistenc.Result.{ok, raise, value_error}
use kv_cache_tier_persistenc.Dict
use kv_cache_tier_persistenc.Dict.{Dict}
use kv_cache_tier_persistenc.Dict.Bytes.{Bytes}
use kv_cache_tier_persistenc.Float.Exact.{Fraction, exact}
use kv_cache_tier_persistenc.Metrics.{
  Numpy, metric_name, to_dict, get_stats, get_all_stats, stats_of,
}
use kv_cache_tier_persistenc.Metrics.Log.{
  Call, after, recorded_under, unless_empty, get_stats-after,
}
use kv_cache_tier_persistenc.Config
use kv_cache_tier_persistenc.Config.{ModelConfig}
use kv_cache_tier_persistenc.Tensor.{Tensor, float16, KvData, layer}
use kv_cache_tier_persistenc.Serialization.Raw.{from_le}
use kv_cache_tier_persistenc.Serialization.Safetensors.{
  Library, flatten, metadata_of, serialize, deserialize,
}
use kv_cache_tier_persistenc.Serialization.Safetensors.Flat.{IsOnce}
use kv_cache_tier_persistenc.Serialization.Safetensors.RoundTrip.{IsFile, deserialize-serialize}

tags_sorted : metric_name "load" (("tier", "hot") ∷ ("model", "m") ∷ []) ≡ "load[model=m,tier=hot]"
unfolding metric_name
tags_sorted = refl

abbrev np : Numpy Fraction
np = record {
  mean = λ l. exact.of_nat (length l);
  percentile = λ l n. exact.of_nat n;
  least = λ l. exact.of_nat 0;
  greatest = λ l. exact.of_nat 9;
}

abbrev calls : List (Call Fraction)
calls =
    record { name = "load"; tags = ("tier", "hot") ∷ []; value = exact.of_nat 3 }
    ∷ record { name = "save"; tags = []; value = exact.of_nat 2 }
    ∷ record { name = "load"; tags = ("tier", "hot") ∷ []; value = exact.of_nat 1 }
    ∷ []

in_order : recorded_under "load[tier=hot]" calls ≡ exact.of_nat 1 ∷ exact.of_nat 3 ∷ []
unfolding recorded_under metric_name
in_order = refl

get_stats-after_example :
    (Dict.get (to_dict (after calls)) "save" ≡ unless_empty (recorded_under "save" calls))
    × (get_stats exact np (after calls) "save" ≡ stats_of exact np (recorded_under "save" calls))
    × (Dict.get (get_all_stats exact np (after calls)) "save" ≡ (
        if is_empty (recorded_under "save" calls)
        then none
        else some (stats_of exact np (recorded_under "save" calls))))
get_stats-after_example = get_stats-after exact np calls "save"

abbrev tensor : ℕ → Tensor
tensor n = record {
  dtype = float16;
  heads = 1;
  tokens = 1;
  head_dim = 1;
  cells = ((n ∷ []) ∷ []) ∷ [];
}

-- the second layer is not one of the model's
abbrev two_layers : KvData
two_layers = (1, (tensor 1, tensor 2)) ∷ (5, (tensor 3, tensor 4)) ∷ []

abbrev model : ModelConfig
model = record Config.default { num_layers = 3 }

abbrev file : Bytes
file = 2 ∷ 0 ∷ 0 ∷ 0 ∷ 0 ∷ 0 ∷ 0 ∷ 0 ∷ 123 ∷ 125 ∷ []

-- a library that knows the one file
abbrev pub library : Library
library = record {
  save = λ flat md. ok file;
  load = λ b. if length b == 10 then ok (flatten [] two_layers) else raise value_error;
  first_uint64 = λ b. if length b == 8 then ok (from_le b) else raise value_error;
  read_metadata = λ b. if length b == 2 then ok (some (metadata_of model)) else raise value_error;
}

two_layers-IsOnce : IsOnce two_layers
unfolding layer
two_layers-IsOnce = (refl, (refl, tt))

file-IsFile : IsFile library (flatten [] two_layers) (metadata_of model) file
file-IsFile = record {
  saves = refl;
  header_len = 2;
  length_read = refl;
  metadata = metadata_of model;
  metadata_read = refl;
  same_metadata = λ k. refl;
  tensors = flatten [] two_layers;
  tensors_read = refl;
  same_tensors = λ k. refl;
}

deserialize-serialize_example :
    (r : KvData) × (serialize library two_layers model ≡ ok file)
    × (deserialize library file ≡ ok (r, model))
    × ((j : ℕ) → layer r j ≡ (if ltb j model.num_layers then layer two_layers j else none))
deserialize-serialize_example =
    deserialize-serialize library two_layers model file two_layers-IsOnce file-IsFile

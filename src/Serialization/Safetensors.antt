-- ===== src/Serialization/Safetensors.antt =====
-- serialization/safetensors_serde.py: `SafetensorsSerializer`, and the factory of serialization/. What it
-- calls of safetensors, of numpy and of Python's `json` is a parameter.
pub mod Names
pub mod Flat
pub mod RoundTrip
use Prim.Native.String.{◌++◌ as joined}
use kv_cache_tier_persistenc.Prelude.{
  ℕ, zero, suc, String, Option, none, some, List, [], ◌∷◌, take, str_eq, if◌then◌else◌,
}
use kv_cache_tier_persistenc.Result.{Result, ok, raise, value_error, ◌>>=◌}
use kv_cache_tier_persistenc.Dict
use kv_cache_tier_persistenc.Dict.{Dict, put}
use kv_cache_tier_persistenc.Dict.Bytes.{Bytes}
use kv_cache_tier_persistenc.Decimal.{str, int}
use kv_cache_tier_persistenc.Config.{ModelConfig}
use kv_cache_tier_persistenc.Tensor.{Tensor, KvData}
use kv_cache_tier_persistenc.Serialization.Raw.{Codec, field}
use kv_cache_tier_persistenc.Serialization.Compressed.{Serializer, raw_binary}

-- `save(tensors, metadata=metadata)` and `load(data)` of safetensors.numpy, `np.frombuffer(b,
-- dtype=np.uint64)[0]`, and `json.loads(b.decode('utf-8')).get("__metadata__")`, none where it is absent.
pub record Library : Type 0 where
  pub save : Dict Tensor → Dict String → Result Bytes
  pub load : Bytes → Result (Dict Tensor)
  pub first_uint64 : Bytes → Result ℕ
  pub read_metadata : Bytes → Result (Option (Dict String))

-- f"layer_{layer}_key" and f"layer_{layer}_value"
abbrev pub key_name : ℕ → String
key_name i = joined "layer_" (joined (str i) "_key")

abbrev pub value_name : ℕ → String
value_name i = joined "layer_" (joined (str i) "_value")

-- the loop that fills `flat_tensors`
unfoldable pub flatten : Dict Tensor → KvData → Dict Tensor
flatten flat [] = flat
flatten flat ((i, (k, v)) ∷ kv) = flatten (put (put flat (key_name i) k) (value_name i) v) kv

abbrev pub metadata_of : ModelConfig → Dict String
metadata_of c =
    ("num_layers", str c.num_layers)
    ∷ ("num_heads", str c.num_heads)
    ∷ ("head_dim", str c.head_dim)
    ∷ ("block_size", str c.block_size)
    ∷ ("dtype", c.dtype)
    ∷ []

-- int(metadata.get(name, default))
abbrev pub int_or : ℕ → Option String → Result ℕ
int_or default none = ok default
int_or default (some s) = int s

abbrev pub text_or : String → Option String → String
text_or default none = default
text_or default (some s) = s

unfoldable pub read_config : Dict String → Result ModelConfig
read_config md = int_or 32 (Dict.get md "num_layers") >>= λ layers.
    int_or 32 (Dict.get md "num_heads") >>= λ heads. int_or 128 (Dict.get md "head_dim") >>= λ dim.
    int_or 16 (Dict.get md "block_size") >>= λ size. ok record {
      num_layers = layers;
      num_heads = heads;
      head_dim = dim;
      block_size = size;
      dtype = text_or "float16" (Dict.get md "dtype");
    }

-- `header.get("__metadata__", {})`
abbrev pub metadata_or : Option (Dict String) → Dict String
metadata_or none = []
metadata_or (some md) = md

-- the test on both names, and the assignment
abbrev pub with_layer : ℕ → Option Tensor → Option Tensor → KvData → KvData
with_layer i (some k) (some v) rest = (i, (k, v)) ∷ rest
with_layer i _ _ rest = rest

-- the loop over `range(num_layers)`, from a layer on
unfoldable pub collect : Dict Tensor → ℕ → ℕ → KvData
collect flat i zero = []
collect flat i (suc n) =
    with_layer i (Dict.get flat (key_name i)) (Dict.get flat (value_name i))
      (collect flat (suc i) n)

module _ (s : Library) where
  unfoldable pub serialize : KvData → ModelConfig → Result Bytes
  unfolding flatten
  serialize kv c = s.save (flatten [] kv) (metadata_of c)

  unfoldable pub deserialize : Bytes → Result (KvData × ModelConfig)
  unfolding read_config collect
  deserialize content = s.first_uint64 (take 8 content) >>= λ header_len.
      s.read_metadata (field content 8 header_len) >>= λ md. read_config (metadata_or md) >>= λ c.
      s.load content >>= λ flat. ok (collect flat 0 c.num_layers, c)

abbrev pub safetensors : Library → Serializer
safetensors s = record { serialize = serialize s; deserialize = deserialize s }

unfoldable pub create_serializer : Library → Codec → String → Result Serializer
create_serializer s z format_name =
    if str_eq format_name "safetensors"
    then ok (safetensors s)
    else if str_eq format_name "raw_binary"
    then ok (raw_binary z)
    else raise value_error

-- ===== src/Serialization/Safetensors/RoundTrip.antt =====
-- serialization/safetensors_serde.py: what is read back of a file that safetensors wrote.
use kv_cache_tier_persistenc.Prelude.{
  ℕ, ◌+◌, String, ◌≡◌, refl, ◌∙◌, ◌&&◌, Option, none, some, [], take, arith, ltb, leb,
  if◌then◌else◌,
}
use kv_cache_tier_persistenc.Result.{ok}
use kv_cache_tier_persistenc.Dict
use kv_cache_tier_persistenc.Dict.{Dict, put, get-put}
use kv_cache_tier_persistenc.Dict.Bytes.{Bytes}
use kv_cache_tier_persistenc.Decimal.{int-str}
use kv_cache_tier_persistenc.Config.{ModelConfig}
use kv_cache_tier_persistenc.Tensor.{Tensor, KvData, layer}
use kv_cache_tier_persistenc.Serialization.Raw.{field}
use kv_cache_tier_persistenc.Serialization.Safetensors.{
  Library, key_name, value_name, flatten, metadata_of, read_config, collect, serialize, deserialize,
}
use kv_cache_tier_persistenc.Serialization.Safetensors.Flat.{
  IsOnce, get_key-flatten, get_value-flatten, layer-collect,
}

-- What the format documents of a file with these tensors and this metadata: the length of the header in
-- the first 8 bytes, the metadata in the header, and `load` giving the tensors, each in any order.
pub record IsFile (s : Library) (flat : Dict Tensor) (md : Dict String) (b : Bytes) : Type 0 where
  pub saves : s.save flat md ≡ ok b
  pub header_len : ℕ
  pub length_read : s.first_uint64 (take 8 b) ≡ ok header_len
  pub metadata : Dict String
  pub metadata_read : s.read_metadata (field b 8 header_len) ≡ ok (some metadata)
  pub same_metadata : (k : String) → Dict.get metadata k ≡ Dict.get md k
  pub tensors : Dict Tensor
  pub tensors_read : s.load b ≡ ok tensors
  pub same_tensors : (k : String) → Dict.get tensors k ≡ Dict.get flat k

from_zero :
    {A : Type 0} (n j : ℕ) (o : Option A)
    → (if leb 0 j && ltb j (0 + n) then o else none) ≡ (if ltb j n then o else none)
from_zero n j o = ground arith

read_config-metadata :
    (c : ModelConfig) (md : Dict String)
    → ((k : String) → Dict.get md k ≡ Dict.get (metadata_of c) k)
    → read_config md ≡ ok c
unfolding read_config Dict.get
read_config-metadata c md same =
    rw (same "num_layers", same "num_heads", same "head_dim", same "block_size", same "dtype")
      (rw (int-str c.num_layers, int-str c.num_heads, int-str c.head_dim, int-str c.block_size)
        refl)

-- KV data of a dict, in which no layer stands twice, and a file with their tensors and the texts of the
-- configuration: `serialize` gives the file, and `deserialize` of it gives all five fields of the
-- configuration, and the data without the layers from `num_layers` on; it skips a layer that is
-- missing.
pub deserialize-serialize :
    (s : Library) (kv : KvData) (c : ModelConfig) (b : Bytes)
    → IsOnce kv
    → IsFile s (flatten [] kv) (metadata_of c) b
    → (r : KvData) × (serialize s kv c ≡ ok b)
      × (deserialize s b ≡ ok (r, c))
      × ((j : ℕ) → layer r j ≡ (if ltb j c.num_layers then layer kv j else none))
unfolding serialize deserialize Dict.get
deserialize-serialize s kv c b once file = (
  collect file.tensors 0 c.num_layers,
  file.saves,
  rw (file.length_read) (
      rw (file.metadata_read) (
        rw (read_config-metadata c file.metadata file.same_metadata)
          (rw (file.tensors_read) refl))),
  λ j.
      layer-collect file.tensors kv
        (λ i. file.same_tensors (key_name i) ∙ get_key-flatten kv [] i once)
        (λ i. file.same_tensors (value_name i) ∙ get_value-flatten kv [] i once) 0 c.num_layers j
      ∙ from_zero c.num_layers j (layer kv j),
)

-- ===== src/Serialization/Compressed.antt =====
-- serialization/compression.py and the factories: the wrapper that compresses what a serializer
-- writes. The compressors of lz4 and zstandard are parameters.
pub mod Stored
use kv_cache_tier_persistenc.Prelude.{
  ℕ, String, ◌≡◌, refl, Bool, false, is_empty, str_eq, if◌then◌else◌,
}
use kv_cache_tier_persistenc.Result.{Result, ok, raise, value_error, ◌>>=◌}
use kv_cache_tier_persistenc.Dict.Bytes.{Bytes}
use kv_cache_tier_persistenc.Config.{ModelConfig}
use kv_cache_tier_persistenc.Tensor.{KvData}
use kv_cache_tier_persistenc.Manager.{CacheSerializer}
use kv_cache_tier_persistenc.Serialization.Raw
use kv_cache_tier_persistenc.Serialization.Raw.{Codec}

pub record Compressor : Type 0 where
  pub compress : Bytes → Bytes
  pub decompress : Bytes → Result Bytes

-- Decompression undoes compression, and a frame is never empty.
pub record IsCompressor (z : Compressor) : Type 0 where
  pub decompresses : (b : Bytes) → z.decompress (z.compress b) ≡ ok b
  pub frame : (b : Bytes) → is_empty b ≡ false → is_empty (z.compress b) ≡ false

abbrev pub no_compressor : Compressor
no_compressor = record { compress = λ b. b; decompress = ok }

unfoldable pub create_compressor : Compressor → (ℕ → Compressor) → String → ℕ → Result Compressor
create_compressor lz4 zstd name level =
    if str_eq name "none"
    then ok no_compressor
    else if str_eq name "lz4"
    then ok lz4
    else if str_eq name "zstd"
    then ok (zstd level)
    else raise value_error

-- A serializer as the package defines it: `deserialize` returns the configuration too.
pub record Serializer : Type 0 where
  pub serialize : KvData → ModelConfig → Result Bytes
  pub deserialize : Bytes → Result (KvData × ModelConfig)

abbrev pub raw_binary : Codec → Serializer
raw_binary z = record { serialize = Raw.serialize z; deserialize = Raw.deserialize z }

-- `CompressedSerializer`
unfoldable pub compressed : Serializer → Compressor → Serializer
compressed base z = record {
  serialize = λ kv c. base.serialize kv c >>= λ b. ok (z.compress b);
  deserialize = λ b. z.decompress b >>= base.deserialize;
}

-- `kv_data, _ = self.serializer.deserialize(data)`
unfoldable pub for_manager : Serializer → CacheSerializer
for_manager s = record {
  serialize = s.serialize;
  deserialize = λ b. s.deserialize b >>= λ r. ok r.0;
}

-- What the serializer writes the wrapper compresses, and what it reads back the wrapper does.
pub compressed-reads :
    (base : Serializer) (z : Compressor) (kv : KvData) (c : ModelConfig) (b : Bytes)
    (r : KvData × ModelConfig)
    → IsCompressor z
    → base.serialize kv c ≡ ok b
    → base.deserialize b ≡ ok r
    → ((compressed base z).serialize kv c ≡ ok (z.compress b))
      × ((compressed base z).deserialize (z.compress b) ≡ ok r)
unfolding compressed
compressed-reads base z kv c b r laws w d = (rw w refl, rw (laws.decompresses b) d)

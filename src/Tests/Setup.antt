-- ===== src/Tests/Setup.antt =====
-- The manager that the default configuration makes, over directories with one file each.
use kv_cache_tier_persistenc.Prelude.{[]}
use kv_cache_tier_persistenc.Dict.{Dict}
use kv_cache_tier_persistenc.Dict.Bytes.{Bytes}
use kv_cache_tier_persistenc.Serialization.Compressed.{no_compressor}
use kv_cache_tier_persistenc.Eviction.Factory.{Policy}
use kv_cache_tier_persistenc.Manager.{Manager}
use kv_cache_tier_persistenc.Manager.Holds.{Holds}
use kv_cache_tier_persistenc.Manager.Fits.{Fits}
use kv_cache_tier_persistenc.Manager.Init.{Platform}
use kv_cache_tier_persistenc.Tests.Storage.{boto, file_system}
use kv_cache_tier_persistenc.Tests.Measures.{library}
use kv_cache_tier_persistenc.Tests.Codecs.{codec}

abbrev platform : Platform (Dict Bytes)
platform = record {
  boto = boto;
  store = [];
  fs = file_system;
  codec = codec;
  library = library;
  lz4 = no_compressor;
  zstd = λ level. no_compressor;
  config_hash = λ c. c.dtype;
}

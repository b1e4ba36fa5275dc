-- ===== src/Config.antt =====
-- config.py: the configuration records with their defaults, and the sizes of `ModelConfig`.
use kv_cache_tier_persistenc.Float.{Floats}
use kv_cache_tier_persistenc.Prelude.{ℕ, ◌*◌, String, ◌||◌, str_eq, if◌then◌else◌}

pub record ModelConfig : Type 0 where
  pub num_layers : ℕ
  pub num_heads : ℕ
  pub head_dim : ℕ
  pub block_size : ℕ
  pub dtype : String

abbrev pub default : ModelConfig
default = record {
  num_layers = 32;
  num_heads = 32;
  head_dim = 128;
  block_size = 16;
  dtype = "float16";
}

abbrev pub bytes_per_element : ModelConfig → ℕ
bytes_per_element c = if str_eq c.dtype "float16" || str_eq c.dtype "bfloat16" then 2 else 4

unfoldable pub cache_block_size_bytes : ModelConfig → ℕ
cache_block_size_bytes c = 2 * c.num_heads * c.head_dim * c.block_size * bytes_per_element c

unfoldable pub session_size_bytes : ModelConfig → ℕ → ℕ
session_size_bytes c token_count =
    2 * c.num_layers * c.num_heads * token_count * c.head_dim * bytes_per_element c

pub record TierConfig : Type 0 where
  pub hot_capacity_mb : ℕ
  pub warm_capacity_mb : ℕ
  pub cold_capacity_mb : ℕ
  pub warm_storage_path : String
  pub cold_storage_path : String
  pub cold_backend : String
  pub minio_endpoint : String
  pub minio_access_key : String
  pub minio_secret_key : String
  pub minio_bucket : String

pub record EvictionConfig (F : Type 0) : Type 0 where
  pub policy : String
  pub ttl_seconds : ℕ
  pub hot_ttl_seconds : ℕ
  pub warm_ttl_seconds : ℕ
  pub cold_ttl_seconds : ℕ
  pub check_interval_seconds : ℕ
  pub predictive_alpha : F
  pub predictive_beta : F
  pub predictive_gamma : F

pub record SerializationConfig : Type 0 where
  pub format : String
  pub compression : String
  pub compression_level : ℕ

pub record SystemConfig (F : Type 0) : Type 0 where
  pub model : ModelConfig
  pub tiers : TierConfig
  pub eviction : EvictionConfig F
  pub serialization : SerializationConfig

abbrev pub default_tiers : TierConfig
default_tiers = record {
  hot_capacity_mb = 8192;
  warm_capacity_mb = 65536;
  cold_capacity_mb = 0;
  warm_storage_path = "./data/warm";
  cold_storage_path = "./data/cold";
  cold_backend = "local";
  minio_endpoint = "localhost:9000";
  minio_access_key = "minioadmin";
  minio_secret_key = "minioadmin";
  minio_bucket = "kv-cache";
}

abbrev pub default_eviction : {F : Type 0} → Floats F → EvictionConfig F
default_eviction f = record {
  policy = "lru";
  ttl_seconds = 3600;
  hot_ttl_seconds = 300;
  warm_ttl_seconds = 3600;
  cold_ttl_seconds = 86400;
  check_interval_seconds = 60;
  predictive_alpha = f.literal 4 10;
  predictive_beta = f.literal 4 10;
  predictive_gamma = f.literal 2 10;
}

abbrev pub default_serialization : SerializationConfig
default_serialization = record {
  format = "safetensors";
  compression = "lz4";
  compression_level = 1;
}

-- `SystemConfig.default()`
abbrev pub default_system : {F : Type 0} → Floats F → SystemConfig F
default_system f = record {
  model = default;
  tiers = default_tiers;
  eviction = default_eviction f;
  serialization = default_serialization;
}

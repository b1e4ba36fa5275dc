-- ===== src/Manager/Init.antt =====
-- core/tiered_manager.py: `TieredCacheManager.__init__`, which puts the parts together: the tiers, the
-- serializer, the empty index and the policy. The libraries and the file system are parameters. A manager
-- over a MinIO tier, which the tiers of the model do not hold, ends in `untyped`.
pub mod Known
pub mod Ready
use kv_cache_tier_persistenc.Prelude.{ℕ, ◌*◌, String, Option, none, some, [], ◌∷◌, if◌then◌else◌}
use kv_cache_tier_persistenc.Result.{Result, ok, raise, untyped, ◌>>=◌}
use kv_cache_tier_persistenc.Dict.{Dict}
use kv_cache_tier_persistenc.Dict.Bytes.{Bytes}
use kv_cache_tier_persistenc.Float.{Floats, MathModule}
use kv_cache_tier_persistenc.CostModel.{CostModel}
use kv_cache_tier_persistenc.Config.{ModelConfig, SystemConfig, TierConfig, EvictionConfig}
use kv_cache_tier_persistenc.Tiers.Hot
use kv_cache_tier_persistenc.Tiers.Warm.{WarmTier}
use kv_cache_tier_persistenc.Tiers.Storage.{StorageTier, hot_tier, warm_tier, local_cold}
use kv_cache_tier_persistenc.Tiers.Minio.Connect as Cold
use kv_cache_tier_persistenc.Tiers.Minio.Connect.{Boto, FileSystem, ColdTier, minio, local}
use kv_cache_tier_persistenc.Serialization.Raw.{Codec}
use kv_cache_tier_persistenc.Serialization.Compressed.{
  Compressor, Serializer, create_compressor, compressed, for_manager,
}
use kv_cache_tier_persistenc.Serialization.Safetensors.{Library, create_serializer}
use kv_cache_tier_persistenc.Eviction.Factory.{Policy, create_eviction_policy}
use kv_cache_tier_persistenc.Eviction.Factory as Factory
use kv_cache_tier_persistenc.Manager.{Manager}
use kv_cache_tier_persistenc.Manager.Requests.{Settings}

-- What the constructor reaches outside of the package: the store, the files, and the libraries of the
-- formats and the compressors.
pub record Platform (W : Type 0) : Type 0 where
  pub boto : Boto W
  pub store : W
  pub fs : FileSystem
  pub codec : Codec
  pub library : Library
  pub lz4 : Compressor
  pub zstd : ℕ → Compressor
  pub config_hash : ModelConfig → String

abbrev pub mb : ℕ → ℕ
mb n = n * 1024 * 1024

module _ {W : Type 0} (p : Platform W) where
  -- `WarmTier(storage_path, capacity_bytes)`
  unfoldable pub open_warm : TierConfig → Result StorageTier
  open_warm c = p.fs.makedirs c.warm_storage_path >>= λ files. ok (
      warm_tier record {
        capacity_bytes = mb c.warm_capacity_mb;
        files = files;
        io_error = p.fs.io_error c.warm_storage_path;
      })

  abbrev pub cold_options : TierConfig → Cold.Options
  cold_options c = record {
    endpoint = some c.minio_endpoint;
    access_key = some c.minio_access_key;
    secret_key = some c.minio_secret_key;
    bucket = some c.minio_bucket;
    storage_path = some c.cold_storage_path;
    capacity_bytes = some (mb c.cold_capacity_mb);
  }

  abbrev pub local_only : ColdTier W → Result StorageTier
  local_only (minio t) = raise untyped
  local_only (local t) = ok (local_cold t)

  unfoldable pub open_cold : TierConfig → Result StorageTier
  open_cold c = Cold.create p.boto p.fs c.cold_backend (cold_options c) p.store >>= local_only

  module _ {F : Type 0} (f : Floats F) (cost_model : Option (CostModel F))
      (c : SystemConfig F) where
    unfoldable pub serializer_for : Result Serializer
    serializer_for = create_serializer p.library p.codec c.serialization.format >>= λ base.
        create_compressor p.lz4 p.zstd c.serialization.compression c.serialization.compression_level
        >>= λ z. ok (compressed base z)

    abbrev pub policy_options : Factory.Options F
    policy_options = record {
      ttl_seconds = some (
          ("hot", c.eviction.hot_ttl_seconds)
          ∷ ("warm", c.eviction.warm_ttl_seconds)
          ∷ ("cold", c.eviction.cold_ttl_seconds)
          ∷ []);
      alpha = some c.eviction.predictive_alpha;
      beta = some c.eviction.predictive_beta;
      gamma = some c.eviction.predictive_gamma;
      decay_half_life = none;
      admission_threshold = none;
      prior_gap_seconds = none;
      ema_alpha = none;
      cost_model = cost_model;
    }

    -- the object when the clock reads `now`: what stays fixed, and the state
    unfoldable pub new_manager : ℕ → Result (Settings × Manager (Policy F))
    unfolding open_warm open_cold serializer_for
    new_manager now = open_warm c.tiers >>= λ warm. open_cold c.tiers >>= λ cold.
        serializer_for >>= λ s.
        create_eviction_policy f c.eviction.policy policy_options >>= λ policy. ok (
          record { model = c.model; serializer = for_manager s; config_hash = p.config_hash },
          record {
            hot_tier = hot_tier (Hot.init (mb c.tiers.hot_capacity_mb));
            warm_tier = warm;
            cold_tier = cold;
            index = [];
            policy = policy;
            now = now;
            metrics = [];
          },
        )

-- ===== src/Manager/Init/Ready.antt =====
-- core/tiered_manager.py: the manager that the constructor makes, and what its calls keep.
use kv_cache_tier_persistenc.Prelude.{ℕ, ◌≤◌, String, ◌≡◌, ◌⊎◌, false, Option, []}
use kv_cache_tier_persistenc.Result.{ok}
use kv_cache_tier_persistenc.Dict
use kv_cache_tier_persistenc.Dict.{Dict}
use kv_cache_tier_persistenc.Dict.Bytes.{Bytes, sizes_of, total}
use kv_cache_tier_persistenc.Float.{Floats, MathModule}
use kv_cache_tier_persistenc.CostModel.{CostModel}
use kv_cache_tier_persistenc.Config.{SystemConfig}
use kv_cache_tier_persistenc.Tiers.Hot
use kv_cache_tier_persistenc.Tiers.Storage.{StorageTier, hot_tier, warm_tier, local_cold}
use kv_cache_tier_persistenc.Tiers.Minio.Connect as Cold
use kv_cache_tier_persistenc.Serialization.Compressed.{Serializer, for_manager}
use kv_cache_tier_persistenc.Eviction.Factory.{Policy}
use kv_cache_tier_persistenc.Manager.{Manager}
use kv_cache_tier_persistenc.Manager.Holds.{Holds}
use kv_cache_tier_persistenc.Manager.Fits.{Fits}
use kv_cache_tier_persistenc.Manager.Requests.{Settings}
use kv_cache_tier_persistenc.Manager.Init.{Platform, mb}
use kv_cache_tier_persistenc.Manager.Init.Known.{IsKnown}

-- A directory can be made, refuses no file, and what it holds fits the capacity, if there is one.
pub record IsDirectory (fs : Cold.FileSystem) (path : String) (capacity : ℕ) : Type 0 where
  pub files : Dict Bytes
  pub opens : fs.makedirs path ≡ ok files
  pub no_error : (k : String) → fs.io_error path k ≡ false
  pub fits : (capacity ≡ 0) ⊎ (total (sizes_of files) ≤ capacity)

module _ {W : Type 0} (p : Platform W) where
  module _ {F : Type 0} (f : Floats F) (math : MathModule F) (cost_model : Option (CostModel F))
      (c : SystemConfig F)
      (warm_dir : IsDirectory p.fs c.tiers.warm_storage_path (mb c.tiers.warm_capacity_mb))
      (cold_dir : IsDirectory p.fs c.tiers.cold_storage_path (mb c.tiers.cold_capacity_mb))
      (local_cold_tier : c.tiers.cold_backend ≡ "local") (known : IsKnown c) where
    abbrev warm_made : StorageTier
    warm_made = warm_tier record {
      capacity_bytes = mb c.tiers.warm_capacity_mb;
      files = warm_dir.files;
      io_error = p.fs.io_error c.tiers.warm_storage_path;
    }

    abbrev cold_made : StorageTier
    cold_made = local_cold record {
      capacity_bytes = mb c.tiers.cold_capacity_mb;
      files = cold_dir.files;
      io_error = p.fs.io_error c.tiers.cold_storage_path;
    }

    abbrev made_with : Serializer → Policy F → ℕ → Settings × Manager (Policy F)
    made_with s policy now = (
      record { model = c.model; serializer = for_manager s; config_hash = p.config_hash },
      record {
        hot_tier = hot_tier (Hot.init (mb c.tiers.hot_capacity_mb));
        warm_tier = warm_made;
        cold_tier = cold_made;
        index = [];
        policy = policy;
        now = now;
        metrics = [];
      },
    )

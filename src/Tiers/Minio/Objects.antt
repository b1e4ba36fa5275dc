-- ===== src/Tiers/Minio/Objects.antt =====
-- tiers/cold_tier.py, `MinioColdBackend`: a connected backend over a service that answers, as a
-- dict of objects.
use kv_cache_tier_persistenc.Prelude.{String, ◌≡◌, Option, none, some, str_eq, if◌then◌else◌}
use kv_cache_tier_persistenc.Result.{Error, ok, raise}
use kv_cache_tier_persistenc.Dict
use kv_cache_tier_persistenc.Dict.Bytes.{Bytes}
use kv_cache_tier_persistenc.Tiers.Minio.{S3Client}

-- The service answers, and `objects` tells what the bucket holds: a put stores the object and no
-- other, a get returns it or raises, a head succeeds where there is one, a delete removes it and no other.
pub record IsS3 {W : Type 0} (s3 : S3Client W) (objects : W → String → Option Bytes) : Type 0 where
  pub puts :
      (w : W) (k : String) (b : Bytes)
      → (w' : W) × (s3.put_object w k b ≡ ok w')
        × ((j : String) → objects w' j ≡ (if str_eq k j then some b else objects w j))
  pub gets_there :
      (w : W) (k : String) (b : Bytes) → objects w k ≡ some b → s3.get_object w k ≡ ok b
  pub gets_absent :
      (w : W) (k : String) → objects w k ≡ none → (e : Error) × (s3.get_object w k ≡ raise e)
  pub heads : (w : W) (k : String) → s3.head_object w k ≡ Dict.is_some (objects w k)
  pub deletes :
      (w : W) (k : String)
      → (w' : W) × (s3.delete_object w k ≡ ok w')
        × ((j : String) → objects w' j ≡ (if str_eq k j then none else objects w j))

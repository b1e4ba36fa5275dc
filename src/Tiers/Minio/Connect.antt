-- ===== src/Tiers/Minio/Connect.antt =====
-- tiers/cold_tier.py: the constructors of the two backends, and the factory `ColdTier.create`. boto3 and the
-- file system are parameters.
pub mod Reached
pub mod Chosen
use kv_cache_tier_persistenc.Prelude.{
  ℕ, String, Bool, true, false, Option, none, some, ◌≡◌, refl, str_eq, if◌then◌else◌, ◌⊎◌, inl, inr,
  arith,
}
use kv_cache_tier_persistenc.Result.{Result, ok, raise, import_error, ◌>>=◌}
use kv_cache_tier_persistenc.Dict.{Dict}
use kv_cache_tier_persistenc.Dict.Bytes.{Bytes}
use kv_cache_tier_persistenc.Tiers.Cold.{LocalColdBackend}
use kv_cache_tier_persistenc.Tiers.Minio.{MinioColdBackend}

-- What `head_bucket` ends in: a return, a `ClientError` with a code, or another exception.
pub data BucketAnswer : Type 0 where
  found other_exception : BucketAnswer
  client_error : String → BucketAnswer

-- `boto3.client('s3', …)`, of which only whether it raises is used here, and the calls of the client on a
-- bucket, whose state is `W`.
pub record Boto (W : Type 0) : Type 0 where
  pub installed : Bool
  pub client_made : String → String → String → Bool
  pub head_bucket : W → String → BucketAnswer
  pub create_bucket : W → String → Result W

-- `os.makedirs(path, exist_ok=True)` with what the directory then holds, and the files of it that are
-- refused
pub record FileSystem : Type 0 where
  pub makedirs : String → Result (Dict Bytes)
  pub io_error : String → String → Bool

-- the keyword arguments of `create`
pub record Options : Type 0 where
  pub endpoint : Option String
  pub access_key : Option String
  pub secret_key : Option String
  pub bucket : Option String
  pub storage_path : Option String
  pub capacity_bytes : Option ℕ

pub data ColdTier (W : Type 0) : Type 0 where
  minio : MinioColdBackend W → ColdTier W
  local : LocalColdBackend → ColdTier W

-- kwargs.get(name, default)
abbrev pub or_default {ℓ} : {A : Type ℓ} → Option A → A → A
or_default none d = d
or_default (some a) d = a

abbrev pub bucket_of : Options → String
bucket_of o = or_default o.bucket "kv-cache"

abbrev pub capacity_of : Options → ℕ
capacity_of o = or_default o.capacity_bytes 0

abbrev pub path_of : Options → String
path_of o = or_default o.storage_path "./data/cold"

-- `LocalColdBackend(storage_path, capacity_bytes)`
unfoldable pub open_local : FileSystem → String → ℕ → Result LocalColdBackend
open_local fs path capacity = fs.makedirs path >>= λ files.
    ok record { capacity_bytes = capacity; files = files; io_error = fs.io_error path }

module _ {W : Type 0} (b : Boto W) where
  abbrev pub connected : ℕ → W → MinioColdBackend W
  connected capacity w = record { capacity_bytes = capacity; is_connected = true; bucket = w }

  abbrev pub disconnected : ℕ → W → MinioColdBackend W
  disconnected capacity w = record { capacity_bytes = capacity; is_connected = false; bucket = w }

  -- the bucket is made where `head_bucket` answers 404; any exception ends without a connection
  unfoldable pub with_bucket : ℕ → String → W → BucketAnswer → MinioColdBackend W
  with_bucket capacity name w found = connected capacity w
  with_bucket capacity name w other_exception = disconnected capacity w
  with_bucket capacity name w (client_error code) =
      if str_eq code "404"
      then (elim (b.create_bucket w name) [
        | ok w' ↦ connected capacity w'
        | raise e ↦ disconnected capacity w
      ])
      else disconnected capacity w

  -- `MinioColdBackend(endpoint, access_key, secret_key, bucket, capacity_bytes)`
  unfoldable pub connect : String → String → String → String → ℕ → W → Result (MinioColdBackend W)
  unfolding with_bucket
  connect endpoint access secret name capacity w =
      if b.installed
      then (if b.client_made endpoint access secret
          then ok (with_bucket capacity name w (b.head_bucket w name))
          else ok (disconnected capacity w))
      else raise import_error

  -- the `try` of `create`: no connection and an ImportError go on to the local backend
  unfoldable pub or_local : Result (MinioColdBackend W) → Result (ColdTier W) → Result (ColdTier W)
  or_local (ok t) otherwise = if t.is_connected then ok (minio t) else otherwise
  or_local (raise import_error) otherwise = otherwise
  or_local (raise e) otherwise = raise e

  unfoldable pub create : FileSystem → String → Options → W → Result (ColdTier W)
  unfolding connect or_local open_local
  create fs backend o w =
      let otherwise = open_local fs (path_of o) (capacity_of o) >>= λ t. ok (local t) in
      if str_eq backend "minio"
      then or_local
          (connect (or_default o.endpoint "localhost:9000") (or_default o.access_key "minioadmin")
            (or_default o.secret_key "minioadmin") (bucket_of o) (capacity_of o) w)
          otherwise
      else otherwise

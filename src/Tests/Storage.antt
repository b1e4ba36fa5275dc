-- ===== src/Tests/Storage.antt =====
-- Instances of what is proved of the storage tiers.
use kv_cache_tier_persistenc.Prelude.{
  ◌≡◌, refl, true, false, Option, none, some, [], ◌∷◌, arith, str_eq, if◌then◌else◌, inr, length,
}
use kv_cache_tier_persistenc.Result.{Result, ok, raise}
use kv_cache_tier_persistenc.Dict
use kv_cache_tier_persistenc.Dict.Bytes.{Bytes, sizes_of, total}
use kv_cache_tier_persistenc.Tiers.Hot
use kv_cache_tier_persistenc.Tiers.Hot.{HotTier}
use kv_cache_tier_persistenc.Tiers.Hot.Laws as HotLaws
use kv_cache_tier_persistenc.Tiers.Warm
use kv_cache_tier_persistenc.Tiers.Warm.{WarmTier}
use kv_cache_tier_persistenc.Tiers.Storage.{warm_tier, is_full, put}
use kv_cache_tier_persistenc.Result.{key_error}
use kv_cache_tier_persistenc.Prelude.{map}
use kv_cache_tier_persistenc.Tiers.Minio
use kv_cache_tier_persistenc.Tiers.Minio.{S3Client, MinioColdBackend}
use kv_cache_tier_persistenc.Result.{runtime_error}
use kv_cache_tier_persistenc.Tiers.Minio.Connect.{
  Boto, FileSystem, Options, ColdTier, client_error, create,
}
use kv_cache_tier_persistenc.Tiers.Minio.Connect.Chosen.{Chosen, create-Chosen}
use kv_cache_tier_persistenc.Tests.Data.{hot_a, warm_b, bytes_b}

-- The hot tier after `a` was replaced by a payload of two bytes.
abbrev hot_replaced : HotTier
hot_replaced = record {
  capacity_bytes = 4;
  storage = ("a", bytes_b) ∷ [];
  sizes = ("a", 2) ∷ [];
  current_bytes = 2;
}

hot_put : Hot.put hot_a "a" bytes_b ≡ ok hot_replaced
unfolding Hot.put Dict.get Dict.put
hot_put = refl

hot_a-IsValid : HotLaws.IsValid hot_a
unfolding Dict.get total sizes_of
hot_a-IsValid = record {
  unique = (refl, tt);
  sized = refl;
  counted = refl;
  fits = inr (omega arith);
}

warm_room : is_full (warm_tier warm_b) 2 ≡ false
unfolding is_full sizes_of total
warm_room = refl

warm_put :
    put (warm_tier warm_b) "d" bytes_b
    ≡ ok (warm_tier (record warm_b { files = ("b", bytes_b) ∷ ("d", bytes_b) ∷ [] }))
unfolding put Warm.put sizes_of total Dict.put
warm_put = refl

abbrev object_or_raise : Option Bytes → Result Bytes
object_or_raise (some b) = ok b
object_or_raise none = raise key_error

-- a bucket as a dict, whose listing is one page
abbrev client : S3Client (Dict.Dict Bytes)
client = record {
  put_object = λ w k b. ok (Dict.put w k b);
  get_object = λ w k. object_or_raise (Dict.get w k);
  head_object = λ w k. Dict.contains w k;
  delete_object = λ w k. ok (Dict.remove w k);
  pages = λ w. some (map (λ e. (e.0, length e.1)) w) ∷ [];
  delete_objects = λ w ks. ok w;
}

abbrev minio_b : MinioColdBackend (Dict.Dict Bytes)
minio_b = record { capacity_bytes = 0; is_connected = true; bucket = ("b", bytes_b) ∷ [] }

-- a store without the bucket, which can be made
abbrev pub boto : Boto (Dict.Dict Bytes)
boto = record {
  installed = true;
  client_made = λ endpoint access secret. true;
  head_bucket = λ w name. client_error "404";
  create_bucket = λ w name. if str_eq name "kv-cache" then ok [] else raise runtime_error;
}

abbrev pub file_system : FileSystem
file_system = record { makedirs = λ path. ok (("a", bytes_b) ∷ []); io_error = λ path key. false }

abbrev options : Options
options = record {
  endpoint = none;
  access_key = none;
  secret_key = none;
  bucket = none;
  storage_path = some "/cold";
  capacity_bytes = some 7;
}

create-Chosen_example :
    (t : ColdTier (Dict.Dict Bytes)) × (create boto file_system "minio" options [] ≡ ok t)
    × Chosen boto file_system "minio" options [] (("a", bytes_b) ∷ []) t
create-Chosen_example = create-Chosen boto file_system "minio" options [] (("a", bytes_b) ∷ []) refl

-- ===== src/Tiers/Storage/Laws.antt =====
-- tiers/: the storage classes as dictionaries of payloads with a capacity.
use kv_cache_tier_persistenc.Prelude.{
  ◌≤◌, String, ◌≡◌, ◌≢◌, refl, ◌⊎◌, false, none, some, arith, str_eq, eq_refl, eq_iff,
  if◌then◌else◌, length,
}
use kv_cache_tier_persistenc.Result.{memory_error, Error, raise, ok, raise}
use kv_cache_tier_persistenc.Dict
use kv_cache_tier_persistenc.Dict.{Dict}
use kv_cache_tier_persistenc.Dict.Bytes.{
  Bytes, sizes_of, total, total-remove-le, total-put, sizes_of-put, sizes_of-remove,
}
use kv_cache_tier_persistenc.Tiers.Hot
use kv_cache_tier_persistenc.Tiers.Hot.Laws as HotLaws
use kv_cache_tier_persistenc.Tiers.Storage.{
  StorageTier, hot_tier, warm_tier, local_cold, is_full, put, get, delete, files,
}

-- The tier holds no more than its capacity, where it has one, and the hot count is right.
abbrev pub IsValid : StorageTier → Type 0
IsValid (hot_tier t) = HotLaws.IsValid t
IsValid (warm_tier t) = (t.capacity_bytes ≡ 0) ⊎ (total (sizes_of t.files) ≤ t.capacity_bytes)
IsValid (local_cold t) = (t.capacity_bytes ≡ 0) ⊎ (total (sizes_of t.files) ≤ t.capacity_bytes)

-- The operating system refuses no file.
abbrev pub IsHealthy : StorageTier → Type 0
IsHealthy (hot_tier t) = Unit
IsHealthy (warm_tier t) = (k : String) → t.io_error k ≡ false
IsHealthy (local_cold t) = (k : String) → t.io_error k ≡ false

-- After a write that returns, in each of the three kinds of tier, the key holds the payload and
-- every other key what it held.
pub files-put :
    (t : StorageTier) (k : String) (b : Bytes) {t' : StorageTier} (j : String)
    → put t k b ≡ ok t'
    → Dict.get (files t') j ≡ (if str_eq k j then some b else Dict.get (files t) j)
unfolding put files
files-put (hot_tier t) k b j h = ground (arith, Dict.get-put t.storage k j b)
files-put (warm_tier t) k b j h = ground (arith, Dict.get-put t.files k j b)
files-put (local_cold t) k b j h = ground (arith, Dict.get-put t.files k j b)

pub files-delete_ne :
    (t : StorageTier) (k j : String)
    → k ≢ j
    → Dict.get (files (delete t k).0) j ≡ Dict.get (files t) j
unfolding delete files
files-delete_ne (hot_tier t) k j h = ground (arith, Dict.get-remove t.storage k j, eq_iff k j)
files-delete_ne (warm_tier t) k j h = ground (arith, Dict.get-remove t.files k j, eq_iff k j)
files-delete_ne (local_cold t) k j h = ground (arith, Dict.get-remove t.files k j, eq_iff k j)

pub files-delete_self :
    (t : StorageTier) (k : String) → IsHealthy t → Dict.get (files (delete t k).0) k ≡ none
unfolding delete files
files-delete_self (hot_tier t) k h = ground (arith, Dict.get-remove t.storage k k, eq_refl k)
files-delete_self (warm_tier t) k h = ground (arith, Dict.get-remove t.files k k, eq_refl k, h k)
files-delete_self (local_cold t) k h = ground (arith, Dict.get-remove t.files k k, eq_refl k, h k)

pub files-get :
    (t : StorageTier) (k : String) {b : Bytes} → get t k ≡ some b → Dict.get (files t) k ≡ some b
unfolding get files
files-get (hot_tier t) k h = h
files-get (warm_tier t) k h = ground arith
files-get (local_cold t) k h = ground arith

pub get_of_healthy : (t : StorageTier) (k : String) → IsHealthy t → get t k ≡ Dict.get (files t) k
unfolding get files
get_of_healthy (hot_tier t) k h = refl
get_of_healthy (warm_tier t) k h = ground (arith, h k)
get_of_healthy (local_cold t) k h = ground (arith, h k)

pub put-IsValid :
    (t : StorageTier) (k : String) (b : Bytes) {t' : StorageTier}
    → IsValid t
    → put t k b ≡ ok t'
    → IsValid t'
unfolding put
put-IsValid (hot_tier t) k b {t' = hot_tier u} v h =
    HotLaws.put-IsValid t k b v (unfold Hot.put in ground arith)
put-IsValid (hot_tier t) k b {t'} v h = absurd (ground arith)
put-IsValid (warm_tier t) k b v h =
    ground (arith, total-put (sizes_of t.files) k (length b), sizes_of-put t.files k b)
put-IsValid (local_cold t) k b v h =
    ground (arith, total-put (sizes_of t.files) k (length b), sizes_of-put t.files k b)

pub delete-IsValid : (t : StorageTier) (k : String) → IsValid t → IsValid (delete t k).0
unfolding delete
delete-IsValid (hot_tier t) k v = HotLaws.delete-IsValid t k v
delete-IsValid (warm_tier t) k v =
    ground (arith, total-remove-le (sizes_of t.files) k, sizes_of-remove t.files k)
delete-IsValid (local_cold t) k v =
    ground (arith, total-remove-le (sizes_of t.files) k, sizes_of-remove t.files k)

pub put-IsHealthy :
    (t : StorageTier) (k : String) (b : Bytes) {t' : StorageTier}
    → IsHealthy t
    → put t k b ≡ ok t'
    → IsHealthy t'
unfolding put
put-IsHealthy (hot_tier t) k b v h = ground arith
put-IsHealthy (warm_tier t) k b v h = ground arith
put-IsHealthy (local_cold t) k b v h = ground arith

pub delete-IsHealthy : (t : StorageTier) (k : String) → IsHealthy t → IsHealthy (delete t k).0
unfolding delete
delete-IsHealthy (hot_tier t) k v = tt
delete-IsHealthy (warm_tier t) k v = ground arith
delete-IsHealthy (local_cold t) k v = ground arith

-- Where the operating system refuses no file and `is_full` is false for the size of the payload,
-- a write does not raise, in any of the three kinds of tier.
pub put_of_room :
    (t : StorageTier) (k : String) (b : Bytes)
    → IsHealthy t
    → is_full t (length b) ≡ false
    → (e : Error) → put t k b ≢ raise e
unfolding put is_full
put_of_room (hot_tier t) k b v h e = ground arith
put_of_room (warm_tier t) k b v h e = ground (arith, v k)
put_of_room (local_cold t) k b v h e = ground (arith, v k)

-- Where the operating system refuses nothing, a write raises `MemoryError` alone.
pub put_raises :
    (t : StorageTier) (k : String) (b : Bytes) (e : Error)
    → IsHealthy t
    → put t k b ≡ raise e
    → e ≡ memory_error
unfolding put
put_raises (hot_tier t) k b e v h = ground arith
put_raises (warm_tier t) k b e v h = ground (arith, v k)
put_raises (local_cold t) k b e v h = ground (arith, v k)

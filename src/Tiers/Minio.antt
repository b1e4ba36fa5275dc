-- ===== src/Tiers/Minio.antt =====
-- tiers/cold_tier.py, `MinioColdBackend`: object storage through an S3 client, which is a parameter.
-- A page of `list_objects_v2` has its `Contents`, or none.
pub mod Objects
pub mod Connect
use kv_cache_tier_persistenc.Prelude.{
  ℕ, zero, ◌+◌, String, Bool, true, false, Option, none, some, List, [], ◌∷◌, ◌++◌, map,
  if◌then◌else◌, is_empty,
}
use kv_cache_tier_persistenc.Result.{Result, ok, raise, runtime_error}
use kv_cache_tier_persistenc.Dict.Bytes.{Bytes}
use kv_cache_tier_persistenc.Tiers.Storage.{TierUsage}

-- An object of a page: `obj['Key']` and `obj['Size']`.
abbrev pub Page : Type 0
Page = Option (List (String × ℕ))

-- The calls of the client on a bucket in state `W`. `head_object` tells whether it succeeded; `pages`
-- are those of a listing that come before it ends or raises.
pub record S3Client (W : Type 0) : Type 0 where
  pub put_object : W → String → Bytes → Result W
  pub get_object : W → String → Result Bytes
  pub head_object : W → String → Bool
  pub delete_object : W → String → Result W
  pub pages : W → List Page
  pub delete_objects : W → List String → Result W

pub record MinioColdBackend (W : Type 0) : Type 0 where
  pub capacity_bytes : ℕ
  pub is_connected : Bool
  pub bucket : W

-- the sizes and the number of the objects of the pages that came
unfoldable pub sum_page : List (String × ℕ) → ℕ × ℕ → ℕ × ℕ
sum_page [] n = n
sum_page ((k, size) ∷ objects) n = sum_page objects (n.0 + size, n.1 + 1)

unfoldable pub sum_pages : List Page → ℕ × ℕ → ℕ × ℕ
unfolding sum_page
sum_pages [] n = n
sum_pages (none ∷ pages) n = sum_pages pages n
sum_pages (some objects ∷ pages) n = sum_pages pages (sum_page objects n)

unfoldable pub keys_of_pages : List Page → List String
keys_of_pages [] = []
keys_of_pages (none ∷ pages) = keys_of_pages pages
keys_of_pages (some objects ∷ pages) = map (λ o. o.0) objects ++ keys_of_pages pages

module _ {W : Type 0} (s3 : S3Client W) where
  -- an exception of the client is raised again
  unfoldable pub put : MinioColdBackend W → String → Bytes → Result (MinioColdBackend W)
  put t key content =
      if t.is_connected
      then (elim (s3.put_object t.bucket key content) [
        | ok w ↦ ok (record t { bucket = w })
        | raise e ↦ raise e
      ])
      else raise runtime_error

  unfoldable pub get : MinioColdBackend W → String → Option Bytes
  get t key =
      if t.is_connected
      then (elim (s3.get_object t.bucket key) [ ok b ↦ some b | raise e ↦ none ])
      else none

  unfoldable pub contains : MinioColdBackend W → String → Bool
  contains t key = if t.is_connected then s3.head_object t.bucket key else false

  unfoldable pub delete : MinioColdBackend W → String → Result (MinioColdBackend W × Bool)
  unfolding contains
  delete t key =
      if t.is_connected
      then (if contains t key
          then (elim (s3.delete_object t.bucket key) [
            | ok w ↦ ok (record t { bucket = w }, true)
            | raise e ↦ raise e
          ])
          else ok (t, false))
      else ok (t, false)

  -- what was counted before the listing raised stays counted
  unfoldable pub usage : MinioColdBackend W → TierUsage
  unfolding sum_pages
  usage t =
      let n = if t.is_connected then sum_pages (s3.pages t.bucket) (0, 0) else (0, 0) in
      record { current_bytes = n.0; capacity_bytes = t.capacity_bytes; entry_count = n.1 }

  unfoldable pub list_entries : MinioColdBackend W → List String
  unfolding keys_of_pages
  list_entries t = if t.is_connected then keys_of_pages (s3.pages t.bucket) else []

  -- an exception of the client is logged
  unfoldable pub clear : MinioColdBackend W → MinioColdBackend W
  unfolding list_entries
  clear t =
      if t.is_connected
      then (if is_empty (list_entries t)
          then t
          else elim (s3.delete_objects t.bucket (list_entries t)) [
            | ok w ↦ record t { bucket = w }
            | raise e ↦ t
          ])
      else t

-- ===== src/Tiers/Warm.antt =====
-- tiers/warm_tier.py: one file per key in a directory. A file is named by its key; `io_error` tells
-- the files that the operating system refuses to open or to remove.
use kv_cache_tier_persistenc.Prelude.{
  ℕ, ◌+◌, String, Bool, true, false, ◌&&◌, not, Option, none, [], ◌∷◌, ltb, if◌then◌else◌, length,
}
use kv_cache_tier_persistenc.Result.{Result, ok, raise, memory_error, os_error}
use kv_cache_tier_persistenc.Dict
use kv_cache_tier_persistenc.Dict.{Dict}
use kv_cache_tier_persistenc.Dict.Bytes.{Bytes, sizes_of, total}

pub record WarmTier : Type 0 where
  pub capacity_bytes : ℕ
  pub files : Dict Bytes
  pub io_error : String → Bool

-- `usage().current_bytes`: the walk over the directory.
abbrev pub current_bytes : WarmTier → ℕ
current_bytes t = total (sizes_of t.files)

-- `StorageTier.is_full`
abbrev pub is_full : WarmTier → ℕ → Bool
is_full t size = ltb 0 t.capacity_bytes && ltb t.capacity_bytes (current_bytes t + size)

unfoldable pub put : WarmTier → String → Bytes → Result WarmTier
put t key content =
    if is_full t (length content)
    then raise memory_error
    else if t.io_error key
    then raise os_error
    else ok (record t { files = Dict.put t.files key content })

unfoldable pub get : WarmTier → String → Option Bytes
get t key =
    if not (Dict.contains t.files key)
    then none
    else if t.io_error key
    then none
    else Dict.get t.files key

unfoldable pub delete : WarmTier → String → WarmTier × Bool
delete t key =
    if Dict.contains t.files key
    then (if t.io_error key
        then (t, false)
        else (record t { files = Dict.remove t.files key }, true))
    else (t, false)

-- The files that can be removed are.
unfoldable pub clear_files : (String → Bool) → Dict Bytes → Dict Bytes
clear_files io_error [] = []
clear_files io_error ((k, b) ∷ files) =
    let rest = clear_files io_error files in if io_error k then (k, b) ∷ rest else rest

unfoldable pub clear : WarmTier → WarmTier
unfolding clear_files
clear t = record t { files = clear_files t.io_error t.files }

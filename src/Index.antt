-- ===== src/Index.antt =====
-- core/cache_metadata.py: the metadata of a session and the index of the sessions. An entry is a
-- mutable object that the index refers to: a write through the reference is `Dict.adjust`.
pub mod Oldest
pub mod File
pub mod Update
use kv_cache_tier_persistenc.Prelude.{
  ℕ, ◌+◌, String, ◌≡◌, Bool, true, false, Option, none, some, List, [], ◌∷◌, map, arith, str_eq,
  leb, if◌then◌else◌, length, take,
}
use kv_cache_tier_persistenc.Dict
use kv_cache_tier_persistenc.Dict.{Dict}
use kv_cache_tier_persistenc.Tiers.Storage.{TierName, hot, warm, cold}

pub record CacheEntry : Type 0 where
  pub session_id : String
  pub user_id : String
  pub model_config_hash : String
  pub created_at : ℕ
  pub last_accessed : ℕ
  pub token_count : ℕ
  pub num_blocks : ℕ
  pub tier : TierName
  pub size_bytes : ℕ
  pub access_count : ℕ
  pub metadata : Dict String

abbrev pub CacheIndex : Type 0
CacheIndex = Dict CacheEntry

-- `==` on tier names
abbrev pub tier_eq : TierName → TierName → Bool
tier_eq hot hot = true
tier_eq warm warm = true
tier_eq cold cold = true
tier_eq _ _ = false

unfoldable pub add : CacheIndex → CacheEntry → CacheIndex
add index entry = Dict.put index entry.session_id entry

unfoldable pub remove : CacheIndex → String → CacheIndex × Bool
remove index session_id =
    if Dict.contains index session_id then (Dict.remove index session_id, true) else (index, false)

unfoldable pub select {ℓ} : {A : Type ℓ} → (A → Bool) → List A → List A
select p [] = []
select p (x ∷ xs) = let rest = select p xs in if p x then x ∷ rest else rest

unfoldable pub find_by_user : CacheIndex → String → List CacheEntry
unfolding select
find_by_user index user_id = select (λ e. str_eq e.user_id user_id) (Dict.values index)

unfoldable pub find_by_tier : CacheIndex → TierName → List CacheEntry
unfolding select
find_by_tier index tier = select (λ e. tier_eq e.tier tier) (Dict.values index)

-- `entries.sort(key=lambda e: e.last_accessed)`: a stable sort, here by insertion.
unfoldable pub insert_by_access : CacheEntry → List CacheEntry → List CacheEntry
insert_by_access e [] = e ∷ []
insert_by_access e (f ∷ l) =
    if leb e.last_accessed f.last_accessed then e ∷ f ∷ l else f ∷ insert_by_access e l

unfoldable pub sort_by_access : List CacheEntry → List CacheEntry
unfolding insert_by_access
sort_by_access [] = []
sort_by_access (e ∷ l) = insert_by_access e (sort_by_access l)

unfoldable pub of_tier : Option TierName → List CacheEntry → List CacheEntry
unfolding select
of_tier none entries = entries
of_tier (some tier) entries = select (λ e. tier_eq e.tier tier) entries

unfoldable pub find_oldest : CacheIndex → ℕ → Option TierName → List CacheEntry
unfolding sort_by_access of_tier
find_oldest index n tier = take n (sort_by_access (of_tier tier (Dict.values index)))

pub record IndexStats : Type 0 where
  pub total_entries : ℕ
  pub tier_counts : TierName → ℕ
  pub tier_sizes_bytes : TierName → ℕ

unfoldable pub count_tier : List CacheEntry → TierName → ℕ
count_tier [] t = 0
count_tier (e ∷ l) t = (if tier_eq e.tier t then 1 else 0) + count_tier l t

unfoldable pub size_tier : List CacheEntry → TierName → ℕ
size_tier [] t = 0
size_tier (e ∷ l) t = (if tier_eq e.tier t then e.size_bytes else 0) + size_tier l t

unfoldable pub stats : CacheIndex → IndexStats
unfolding count_tier size_tier
stats index = record {
  total_entries = length index;
  tier_counts = count_tier (Dict.values index);
  tier_sizes_bytes = size_tier (Dict.values index);
}

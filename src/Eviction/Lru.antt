-- ===== src/Eviction/Lru.antt =====
-- eviction/lru.py: the order of accesses, oldest first, as the keys of the `OrderedDict`.
pub mod Recency
pub mod Uses
use kv_cache_tier_persistenc.Prelude.{
  ℕ, String, ◌≡◌, Bool, true, false, ◌||◌, Option, none, some, List, [], ◌∷◌, ◌++◌, arith, str_eq,
  eq_iff, eq_refl, if◌then◌else◌,
}
use kv_cache_tier_persistenc.Dict
use kv_cache_tier_persistenc.Dict.{Dict}
use kv_cache_tier_persistenc.Index.{CacheEntry}
use kv_cache_tier_persistenc.Eviction.Policy.{EvictionPolicy, IsSound}

unfoldable pub tracked : List String → String → Bool
tracked [] sid = false
tracked (k ∷ order) sid = str_eq k sid || tracked order sid

unfoldable pub without : List String → String → List String
without [] sid = []
without (k ∷ order) sid = let rest = without order sid in if str_eq k sid then rest else k ∷ rest

-- `move_to_end`, or a new key at the end
unfoldable pub on_access : List String → String → List String
unfolding tracked without
on_access order sid = if tracked order sid then without order sid ++ sid ∷ [] else order ++ sid ∷ []

-- An assignment to a key that is there leaves its place.
unfoldable pub on_insert : List String → String → List String
unfolding tracked
on_insert order sid = if tracked order sid then order else order ++ sid ∷ []

unfoldable pub on_remove : List String → String → List String
unfolding tracked without
on_remove order sid = if tracked order sid then without order sid else order

unfoldable pub first_candidate : List String → Dict CacheEntry → Option String
first_candidate [] entries = none
first_candidate (k ∷ order) entries =
    if Dict.contains entries k then some k else first_candidate order entries

-- `next(iter(entries.keys()))`
unfoldable pub first_key : Dict CacheEntry → Option String
first_key [] = none
first_key ((k, e) ∷ entries) = some k

abbrev pub or_else : Option String → Option String → Option String
or_else none b = b
or_else (some a) b = some a

unfoldable pub select_victim : List String → Dict CacheEntry → Option String
unfolding first_candidate first_key
select_victim order [] = none
select_victim order (e ∷ entries) =
    or_else (first_candidate order (e ∷ entries)) (first_key (e ∷ entries))

unfoldable pub lru : EvictionPolicy (List String)
lru = record {
  on_access = λ s now sid e. on_access s sid;
  on_insert = λ s now sid e. on_insert s sid;
  on_remove = on_remove;
  select_victim = λ s now entries. select_victim s entries;
  should_evict = λ s now sid e. false;
}

pub first_candidate-contains :
    (order : List String) (entries : Dict CacheEntry) (v : String)
    → first_candidate order entries ≡ some v
    → Dict.contains entries v ≡ true
unfolding first_candidate
first_candidate-contains [] entries v h = cc
first_candidate-contains (k ∷ order) entries v h =
    ground (arith, first_candidate-contains order entries v)

pub select_victim-contains :
    (order : List String) (entries : Dict CacheEntry) (v : String)
    → select_victim order entries ≡ some v
    → Dict.contains entries v ≡ true
unfolding select_victim Dict.get
select_victim-contains order [] v h = cc
select_victim-contains order ((k, e) ∷ entries) v h =
    ground (arith, first_candidate-contains order ((k, e) ∷ entries) v, eq_iff k v)

-- The victim of LRU is one of the candidates.
pub lru-IsSound : IsSound lru
unfolding lru
lru-IsSound = record { candidate = λ s now entries v. select_victim-contains s entries v }

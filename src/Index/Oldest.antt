-- ===== src/Index/Oldest.antt =====
-- core/cache_metadata.py, `find_oldest`: what the sort and the cut give, stated without them.
use mathlib.Core.List.{Perm}
use mathlib.Core.List.Perm
use kv_cache_tier_persistenc.Prelude.{
  ℕ, zero, suc, ◌≤◌, ◌≡◌, refl, ap, Option, List, [], ◌∷◌, ◌++◌, arith, leb, take, drop, Bool-cases,
  inl, inr, length,
}
use kv_cache_tier_persistenc.Dict
use kv_cache_tier_persistenc.Tiers.Storage.{TierName}
use kv_cache_tier_persistenc.Index.{
  CacheEntry, CacheIndex, insert_by_access, sort_by_access, of_tier, find_oldest,
}

-- No entry was last used before `n`.
abbrev pub UsedFrom : ℕ → List CacheEntry → Type 0
UsedFrom n [] = Unit
UsedFrom n (e ∷ l) = (n ≤ e.last_accessed) × UsedFrom n l

-- The last uses do not decrease.
abbrev pub IsSorted : List CacheEntry → Type 0
IsSorted [] = Unit
IsSorted (e ∷ l) = UsedFrom e.last_accessed l × IsSorted l

UsedFrom-weaken : (n m : ℕ) (l : List CacheEntry) → n ≤ m → UsedFrom m l → UsedFrom n l
UsedFrom-weaken n m [] le h = tt
UsedFrom-weaken n m (e ∷ l) le h = (omega (arith, h.0), UsedFrom-weaken n m l le h.1)

UsedFrom-insert :
    (n : ℕ) (e : CacheEntry) (l : List CacheEntry)
    → n ≤ e.last_accessed
    → UsedFrom n l
    → UsedFrom n (insert_by_access e l)
unfolding insert_by_access
UsedFrom-insert n e [] le h = (le, tt)
UsedFrom-insert n e (f ∷ l) le h = ground (arith, UsedFrom-insert n e l le h.1)

insert_by_access-IsSorted :
    (e : CacheEntry) (l : List CacheEntry) → IsSorted l → IsSorted (insert_by_access e l)
unfolding insert_by_access
insert_by_access-IsSorted e [] h = (tt, tt)
insert_by_access-IsSorted e (f ∷ l) h = elim (Bool-cases (leb e.last_accessed f.last_accessed)) [
  | inl q ↦
      rw q
        (((ground arith, UsedFrom-weaken e.last_accessed f.last_accessed l (ground arith) h.0), h))
  | inr q ↦
      rw q (
        (UsedFrom-insert f.last_accessed e l (ground arith) h.0, insert_by_access-IsSorted e l h.1))
]

insert_by_access-Perm : (e : CacheEntry) (l : List CacheEntry) → Perm (insert_by_access e l) (e ∷ l)
unfolding insert_by_access
insert_by_access-Perm e [] = Perm.rfl
insert_by_access-Perm e (f ∷ l) = elim (Bool-cases (leb e.last_accessed f.last_accessed)) [
  | inl q ↦ rw q Perm.rfl
  | inr q ↦ rw q (Perm.trans (Perm.cons f (insert_by_access-Perm e l)) (Perm.swap e f l))
]

sort_by_access-IsSorted : (l : List CacheEntry) → IsSorted (sort_by_access l)
unfolding sort_by_access
sort_by_access-IsSorted [] = tt
sort_by_access-IsSorted (e ∷ l) =
    insert_by_access-IsSorted e (sort_by_access l) (sort_by_access-IsSorted l)

sort_by_access-Perm : (l : List CacheEntry) → Perm (sort_by_access l) l
unfolding sort_by_access
sort_by_access-Perm [] = Perm.rfl
sort_by_access-Perm (e ∷ l) =
    Perm.trans (insert_by_access-Perm e (sort_by_access l)) (Perm.cons e (sort_by_access-Perm l))

take-drop : (n : ℕ) (l : List CacheEntry) → take n l ++ drop n l ≡ l
take-drop zero l = refl
take-drop (suc n) [] = refl
take-drop (suc n) (e ∷ l) = ap (λ r. e ∷ r) (take-drop n l)

length-take : (n : ℕ) (l : List CacheEntry) → length (take n l) ≤ n
length-take zero l = omega arith
length-take (suc n) [] = omega arith
length-take (suc n) (e ∷ l) = omega (arith, length-take n l)

-- At most `n` entries come back, which, followed by the entries of the tier that do not, are
-- the entries of the tier in some order, by their last use.
pub find_oldest_least :
    (index : CacheIndex) (n : ℕ) (tier : Option TierName)
    → (length (find_oldest index n tier) ≤ n)
      × (rest : List CacheEntry) × Perm
          (find_oldest index n tier ++ rest)
          (of_tier tier (Dict.values index))
      × IsSorted (find_oldest index n tier ++ rest)
unfolding find_oldest
find_oldest_least index n tier =
    let sorted = sort_by_access (of_tier tier (Dict.values index)) in
    (
      length-take n sorted,
      drop n sorted,
      rw (take-drop n sorted) (sort_by_access-Perm (of_tier tier (Dict.values index))),
      rw (take-drop n sorted) (sort_by_access-IsSorted (of_tier tier (Dict.values index))),
    )

-- ===== src/Tests/Policies.antt =====
-- Runs of the policies and of the index, and instances of what is proved of them.
use kv_cache_tier_persistenc.Prelude.{
  ℕ, ◌≤◌, String, ◌≡◌, ◌≢◌, refl, str_eq, if◌then◌else◌, true, none, some, List, [], ◌∷◌, ◌++◌,
  arith, length,
}
use mathlib.Core.List.{Perm}
use kv_cache_tier_persistenc.Dict
use kv_cache_tier_persistenc.Dict.{Dict}
use kv_cache_tier_persistenc.Tiers.Storage.{hot}
use kv_cache_tier_persistenc.Index.{CacheEntry, of_tier, find_oldest}
use kv_cache_tier_persistenc.Index.Oldest.{IsSorted, find_oldest_least}
use kv_cache_tier_persistenc.Eviction.Argmin.{argmin, better}
use kv_cache_tier_persistenc.Eviction.Lru
use kv_cache_tier_persistenc.Eviction.Lru.Recency.{IsOrdered, select_victim_least}
use kv_cache_tier_persistenc.Eviction.Lru.Uses.{
  Used, Hook, access, insertion, removal, after_hooks, after_hooks-IsOrdered,
}
use kv_cache_tier_persistenc.Eviction.Ttl
use kv_cache_tier_persistenc.Eviction.Ttl.{defaults, ttl, is_expired, ttl_of}
use kv_cache_tier_persistenc.Eviction.Ttl.Victim.{
  IsNamed, select_victim_expired, select_victim_total,
}
use kv_cache_tier_persistenc.Tests.Data.{entry, order, system}

find_oldest_least_example :
    (length (find_oldest system.index 2 none) ≤ 2)
    × (rest : List CacheEntry) × Perm
        (find_oldest system.index 2 none ++ rest)
        (of_tier none (Dict.values system.index))
    × IsSorted (find_oldest system.index 2 none ++ rest)
find_oldest_least_example = find_oldest_least system.index 2 none

-- The last use of each session.
abbrev stamp : String → ℕ
stamp j = if str_eq j "c" then 1 else if str_eq j "b" then 5 else 10

order-IsOrdered : IsOrdered stamp 11 order
order-IsOrdered = (
  omega arith,
  (omega arith, (omega arith, tt)),
  (omega arith, (omega arith, tt), (omega arith, tt, tt)),
)

abbrev used : Used
used = record { order = order; stamp = stamp; now = 11 }

abbrev hooks : List Hook
hooks = access "c" ∷ insertion "d" ∷ insertion "a" ∷ removal "b" ∷ []

after_hooks-IsOrdered_example :
    IsOrdered
      (after_hooks hooks used).stamp
      (after_hooks hooks used).now
      (after_hooks hooks used).order
after_hooks-IsOrdered_example = after_hooks-IsOrdered hooks used order-IsOrdered

-- a cache of two sessions of the hot tier, and of one that is in the cold tier
abbrev two : Dict CacheEntry
two = ("a", entry "a" hot 10 3) ∷ ("b", entry "b" hot 5 2) ∷ []

lru_picks : Lru.select_victim order two ≡ some "b"
unfolding Lru.select_victim Lru.first_candidate Lru.first_key Dict.get
lru_picks = refl

a_tracked : Lru.tracked order "a" ≡ true
unfolding Lru.tracked
a_tracked = refl

a_there : Dict.contains two "a" ≡ true
unfolding Dict.get
a_there = refl

select_victim_least_example : stamp "b" ≤ stamp "a"
select_victim_least_example =
    select_victim_least stamp 11 order two "b" "a" order-IsOrdered lru_picks a_tracked a_there

-- At 400 the session `b` has been idle for more than the 300 of the hot tier, and `a` for more too.
two-IsUnique : Dict.IsUnique two
unfolding Dict.get
two-IsUnique = (refl, (refl, tt))

two-IsNamed : IsNamed two
unfolding Dict.get
two-IsNamed = refl

a_is : Dict.get two "a" ≡ some (entry "a" hot 10 3)
unfolding Dict.get
a_is = refl

a_expired : is_expired defaults 400 (entry "a" hot 10 3) ≡ true
unfolding is_expired ttl_of
a_expired = refl

ttl_picks : (now : ℕ) → now ≡ 400 → Ttl.select_victim defaults order now two ≡ some "b"
unfolding Ttl.select_victim Ttl.expired_score Ttl.is_expired Ttl.ttl_of argmin better
ttl_picks now q = rw q refl

select_victim_expired_example :
    (e : CacheEntry) × (Dict.get two "b" ≡ some e)
    × (is_expired defaults 400 e ≡ true)
    × (e.last_accessed ≤ 10)
select_victim_expired_example =
    select_victim_expired defaults order 400 two "b" "a" (entry "a" hot 10 3) two-IsUnique
      two-IsNamed a_is a_expired (ttl_picks 400 refl)

ttl_picks_next : Ttl.select_victim defaults order 20 two ≡ some "b"
unfolding Ttl.select_victim Ttl.expired_score Ttl.remaining_score Ttl.is_expired Ttl.ttl_of argmin
    better
ttl_picks_next = refl

select_victim_total_example : Ttl.select_victim defaults order 20 two ≢ none
select_victim_total_example =
    select_victim_total defaults order 20 ("a", entry "a" hot 10 3) (("b", entry "b" hot 5 2) ∷ [])

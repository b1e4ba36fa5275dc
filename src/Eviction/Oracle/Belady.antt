-- ===== src/Eviction/Oracle/Belady.antt =====
-- eviction/oracle.py: `BeladyPolicy`, the farthest next access. The policy keeps no state.
use kv_cache_tier_persistenc.Prelude.{
  ℕ, ◌≡◌, refl, String, true, false, Option, none, some, List, ◌∷◌, arith,
}
use kv_cache_tier_persistenc.Dict
use kv_cache_tier_persistenc.Dict.{Dict}
use kv_cache_tier_persistenc.Float.{IsOrdered}
use kv_cache_tier_persistenc.Index.{CacheEntry}
use kv_cache_tier_persistenc.Eviction.Policy.{EvictionPolicy, IsSound}
use kv_cache_tier_persistenc.Eviction.Scores.{score_all, select_least}
use kv_cache_tier_persistenc.Eviction.Scores.Least.{
  IsLeastScored, select_least_lem, select_least-contains, score_all-contains,
}
use kv_cache_tier_persistenc.Eviction.Oracle.{TraceOracle, sooner, later, next_access}

module _ (searchsorted : List ℕ → ℕ → ℕ) (oracle : TraceOracle) where
  -- `max(entries, key=...)`: the scan of `min`, with the test the other way
  unfoldable pub select_victim : ℕ → Dict CacheEntry → Option String
  select_victim now entries =
      select_least later (score_all (next_access searchsorted oracle now)) entries

  unfoldable pub belady : EvictionPolicy (Unit {0})
  belady = record {
    on_access = λ s now sid e. s;
    on_insert = λ s now sid e. s;
    on_remove = λ s sid. s;
    select_victim = λ s now entries. select_victim now entries;
    should_evict = λ s now sid e. false;
  }

later-IsOrdered : IsOrdered later
unfolding sooner
later-IsOrdered = record { asym = asym; trans = trans }
  where
    asym : (a b : Option ℕ) → later a b ≡ true → later b a ≡ false
    asym none none h = refl
    asym none (some y) h = refl
    asym (some x) none h = cc
    asym (some x) (some y) h = ground arith

    trans : (a b c : Option ℕ) → later b a ≡ false → later c b ≡ false → later c a ≡ false
    trans a b c p q = ground arith

module _ (searchsorted : List ℕ → ℕ → ℕ) (oracle : TraceOracle) where
  -- Any non-empty dict of candidates has a victim, which is one of them, and no candidate's next
  -- access lies farther in the future than its own; one that never returns lies farthest.
  pub select_victim_farthest :
      (now : ℕ) (b : String × CacheEntry) (entries : Dict CacheEntry)
      → Dict.IsUnique (b ∷ entries)
      → (v : String) × (select_victim searchsorted oracle now (b ∷ entries) ≡ some v)
        × IsLeastScored later (next_access searchsorted oracle now) (b ∷ entries) v
  unfolding select_victim
  select_victim_farthest now b entries u =
      select_least_lem later later-IsOrdered (score_all (next_access searchsorted oracle now))
        (next_access searchsorted oracle now) b entries u refl

  pub belady-IsSound : IsSound (belady searchsorted oracle)
  unfolding belady select_victim
  belady-IsSound = record {
    candidate = λ s now d v h.
        select_least-contains later (score_all (next_access searchsorted oracle now)) d v
          (score_all-contains (next_access searchsorted oracle now) d) h;
  }

-- ===== src/Eviction/Oracle/SpaceTime.antt =====
-- eviction/oracle.py: `OracleSpaceTimePolicy`, the value for each byte and second until the next
-- access. The policy keeps no state.
use kv_cache_tier_persistenc.Prelude.{
  ℕ, ◌≡◌, refl, String, false, Option, none, some, List, ◌∷◌, max,
}
use kv_cache_tier_persistenc.Dict
use kv_cache_tier_persistenc.Dict.{Dict}
use kv_cache_tier_persistenc.Float.{Floats, IsOrdered, max_of}
use kv_cache_tier_persistenc.Index.{CacheEntry}
use kv_cache_tier_persistenc.CostModel.{CostModel, compute_recompute_time}
use kv_cache_tier_persistenc.Eviction.Policy.{EvictionPolicy, IsSound}
use kv_cache_tier_persistenc.Eviction.Scores.{score_all, select_least}
use kv_cache_tier_persistenc.Eviction.Scores.Least.{
  IsLeastScored, select_least_lem, select_least-contains, score_all-contains,
}
use kv_cache_tier_persistenc.Eviction.Oracle.{TraceOracle, next_access}

module _ {F : Type 0} (f : Floats F) (searchsorted : List ℕ → ℕ → ℕ) (oracle : TraceOracle)
    (c : CostModel F) where
  -- recompute / (max(entry.size_bytes, 1) * max(dnext, 1.0)), or 0.0 where there is no next access
  unfoldable pub density : ℕ → CacheEntry → Option ℕ → F
  density now e none = f.of_nat 0
  density now e (some next) = f.div (compute_recompute_time f c e.token_count) (
      f.mul (f.of_nat (max e.size_bytes 1))
        (max_of f (f.sub (f.of_nat next) (f.of_nat now)) (f.of_nat 1)))

  abbrev pub true_density : ℕ → String → CacheEntry → F
  true_density now sid e = density now e (next_access searchsorted oracle now sid e)

  unfoldable pub get_scores : ℕ → Dict CacheEntry → Dict F
  unfolding density
  get_scores now entries = score_all (true_density now) entries

  unfoldable pub select_victim : ℕ → Dict CacheEntry → Option String
  unfolding get_scores
  select_victim now entries = select_least f.lt (get_scores now) entries

  unfoldable pub oracle_space_time : EvictionPolicy (Unit {0})
  oracle_space_time = record {
    on_access = λ s now sid e. s;
    on_insert = λ s now sid e. s;
    on_remove = λ s sid. s;
    select_victim = λ s now entries. select_victim now entries;
    should_evict = λ s now sid e. false;
  }

  -- Where floats are ordered, any non-empty dict of candidates has a victim, which is one of them,
  -- and no candidate has a smaller value for each byte and second until its true next access.
  pub select_victim_worst :
      (now : ℕ) (b : String × CacheEntry) (entries : Dict CacheEntry)
      → IsOrdered f.lt
      → Dict.IsUnique (b ∷ entries)
      → (v : String) × (select_victim now (b ∷ entries) ≡ some v)
        × IsLeastScored f.lt (true_density now) (b ∷ entries) v
  unfolding select_victim get_scores
  select_victim_worst now b entries o u =
      select_least_lem f.lt o (score_all (true_density now)) (true_density now) b entries u refl

  pub oracle_space_time-IsSound : IsSound oracle_space_time
  unfolding oracle_space_time select_victim get_scores
  oracle_space_time-IsSound = record {
    candidate = λ s now d v h.
        select_least-contains f.lt (score_all (true_density now)) d v
          (score_all-contains (true_density now) d) h;
  }

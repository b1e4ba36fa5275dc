-- ===== src/Manager/Requests/Holds.antt =====
-- core/tiered_manager.py: the payloads of the sessions under the operations of a caller other
-- than `save`.
use kv_cache_tier_persistenc.Prelude.{String, refl, arith}
use kv_cache_tier_persistenc.Exec.Hoare.{Triple, state_of_outcome}
use kv_cache_tier_persistenc.Dict
use kv_cache_tier_persistenc.Dict.{Dict}
use kv_cache_tier_persistenc.Dict.Bytes.{Bytes}
use kv_cache_tier_persistenc.Tiers.Storage.{TierName, hot}
use kv_cache_tier_persistenc.Index.{CacheEntry}
use kv_cache_tier_persistenc.Eviction.Policy.{EvictionPolicy}
use kv_cache_tier_persistenc.Manager.{Manager, drop_entry, note}
use kv_cache_tier_persistenc.Manager.Tiers.{tier_congr}
use kv_cache_tier_persistenc.Manager.Holds.{Holds, Holds-IsStable, Holds-adjust}
use kv_cache_tier_persistenc.Manager.Demotion.{evict_at-Keeps}
use kv_cache_tier_persistenc.Manager.Requests.{
  Settings, levels, evict_from_tier, demote, promote, run_maintenance, load, touch, record_hit,
}
use kv_cache_tier_persistenc.Manager.Requests.Stable.{
  IsServed, HasRoom-of_spent, promote-Keeps, demote-Keeps, run_maintenance-Keeps, load-Keeps,
}

module _ {S : Type 0} (p : EvictionPolicy S) (c : Settings) (content : String → Bytes) where
  pub hits :
      (m : Manager S) (sid : String) (e : CacheEntry)
      → Holds content m
      → Holds content (record_hit p c sid e m)
  unfolding record_hit touch
  hits m sid e h =
      Holds-adjust content m (record_hit p c sid e m) sid (touch m.now) refl
        (tier_congr (record_hit p c sid e m) m refl refl refl) (λ x. (refl, refl)) h

  drops : (m : Manager S) (sid : String) → Holds content m → Holds content (drop_entry sid m)
  unfolding drop_entry
  drops m sid h = record {
    at = λ j e q. ground (
      arith,
      Dict.get-remove m.index sid j,
      tier_congr (drop_entry sid m) m refl refl refl e.tier,
      h.at j e,
    );
  }

  Holds-IsServed : IsServed p c (Holds content) (λ _ m. Holds content m)
  unfolding note
  Holds-IsServed = record {
    hits = hits;
    drops = drops;
    notes = λ m x h. record {
      at = λ j e q. ground (arith, tier_congr (note x m) m refl refl refl e.tier, h.at j e q);
    };
    raises = λ m e h. h;
  }

  -- Where each session of the index is stored in the tier of its entry, with its content and
  -- size, the same is so after an eviction, whether it moves sessions, drops them or raises on
  -- the way.
  pub evict_from_tier-Holds :
      (t : TierName) (m : Manager S) → Holds content m → Holds content (evict_from_tier p t m).1
  evict_from_tier-Holds t m h =
      state_of_outcome (Holds content) _
        ((evict_at-Keeps (Holds-IsStable content p) levels t tt).at m h)

  pub promote-Triple :
      (sid : String) (target : TierName)
      → Triple
          (Holds content)
          (promote p sid target)
          (λ _ m. Holds content m)
          (λ _ m. Holds content m)
  promote-Triple sid target =
      promote-Keeps (Holds-IsStable content p) sid target tt
        (HasRoom-of_spent (Holds-IsStable content p) target tt (λ m h. h))

  -- Where each session of the index is stored in the tier of its entry, with its content and
  -- size, the same is so after a promotion that returns or raises.
  pub promote-Holds :
      (sid : String) (target : TierName) (m : Manager S)
      → Holds content m
      → Holds content (promote p sid target m).1
  promote-Holds sid target m h =
      state_of_outcome (Holds content) _ ((promote-Triple sid target).at m h)

  -- Where each session of the index is stored in the tier of its entry, with its content and
  -- size, the same is so after a demotion that returns or raises.
  pub demote-Holds :
      (sid : String) (m : Manager S) → Holds content m → Holds content (demote p sid m).1
  demote-Holds sid m h =
      state_of_outcome (Holds content) _
        ((demote-Keeps (Holds-IsStable content p) (λ _. tt) sid).at m h)

  -- Where each session of the index is stored in the tier of its entry, with its content and
  -- size, the same is so after a maintenance run, whatever it demotes.
  pub run_maintenance-Holds :
      (m : Manager S) → Holds content m → Holds content (run_maintenance p m).1
  run_maintenance-Holds m h =
      state_of_outcome (Holds content) _
        ((run_maintenance-Keeps (Holds-IsStable content p) (λ _. tt)).at m h)

  -- Where each session of the index is stored in the tier of its entry, with its content and
  -- size, the same is so after a load: a hit, a miss, a failed decoding, and whatever its
  -- promotion evicts.
  pub load-Holds :
      (sid : String) (m : Manager S) → Holds content m → Holds content (load p c sid m).1
  load-Holds sid m h =
      state_of_outcome (Holds content) _
        ((load-Keeps Holds-IsServed sid (promote-Triple sid hot)).at m h)

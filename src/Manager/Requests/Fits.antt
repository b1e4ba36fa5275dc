-- ===== src/Manager/Requests/Fits.antt =====
-- core/tiered_manager.py: the calls of a client, and the capacities of the tiers under them.
use kv_cache_tier_persistenc.Prelude.{ℕ, String, refl, Option, length}
use kv_cache_tier_persistenc.Result.{Result}
use kv_cache_tier_persistenc.Exec.{Exec, lift, modify}
use kv_cache_tier_persistenc.Exec.Hoare.{
  Triple, Triple-bind, Triple-state, Triple-if, Triple-gets, state_of_outcome,
}
use kv_cache_tier_persistenc.Dict.{Dict}
use kv_cache_tier_persistenc.Dict.Bytes.{Bytes}
use kv_cache_tier_persistenc.Tensor.{KvData, token_count}
use kv_cache_tier_persistenc.Tiers.Storage.{TierName, hot, warm}
use kv_cache_tier_persistenc.Eviction.Policy.{EvictionPolicy}
use kv_cache_tier_persistenc.Manager.{
  Manager, drop_entry, note, max_attempts, num_blocks, ensure_space, delete,
}
use kv_cache_tier_persistenc.Manager.Tiers.{tier_congr}
use kv_cache_tier_persistenc.Manager.Fits.{Fits, Fits-same, put_in-Fits, Fits-IsStable}
use kv_cache_tier_persistenc.Manager.Stable.{IsStable, ensure_space-Keeps}
use kv_cache_tier_persistenc.Manager.Demotion.{evict_at-Keeps, delete-Keeps}
use kv_cache_tier_persistenc.Manager.Requests.{
  Settings, levels, evict_from_tier, demote, promote, run_maintenance, load, record_hit,
  record_entry, save_to_tier, save_bytes, save,
}
use kv_cache_tier_persistenc.Manager.Requests.Stable.{
  IsServed, HasRoom-of_spent, promote-Keeps, demote-Keeps, run_maintenance-Keeps, load-Keeps,
}
use kv_cache_tier_persistenc.Manager.Requests.Saved.{tier-record_entry}

-- The calls that a client makes.
pub data Request : Type 0 where
  save_request : String → String → KvData → Option (Dict String) → Request
  load_request : String → Request
  promote_request : String → TierName → Request
  demote_request : String → Request
  delete_request : String → Request
  evict_request : TierName → Request
  maintenance_request : Request

module _ {S : Type 0} (p : EvictionPolicy S) (c : Settings) where
  -- The state after a call, whether it returned or raised.
  unfoldable pub after : Request → Manager S → Manager S
  after (save_request sid uid kv md) m = (save p c sid uid kv md m).1
  after (load_request sid) m = (load p c sid m).1
  after (promote_request sid t) m = (promote p sid t m).1
  after (demote_request sid) m = (demote p sid m).1
  after (delete_request sid) m = (delete p sid m).1
  after (evict_request t) m = (evict_from_tier p t m).1
  after maintenance_request m = (run_maintenance p m).1

  stable : IsStable p Fits (λ _ m. Fits m) (λ sid b. Unit {0}) (λ _. Unit {0}) (λ _ _. Unit {0})
  stable = Fits-IsStable p

  abbrev Keeps : {A : Type 0} → Exec (Manager S) A → Type 0
  Keeps x = Triple Fits x (λ _. Fits) (λ _. Fits)

  Fits-IsServed : IsServed p c Fits (λ _ m. Fits m)
  unfolding record_hit drop_entry note
  Fits-IsServed = record {
    hits = λ m sid e h.
        Fits-same m (record_hit p c sid e m) (tier_congr (record_hit p c sid e m) m refl refl refl)
          h;
    drops = λ m sid h.
        Fits-same m (drop_entry sid m) (tier_congr (drop_entry sid m) m refl refl refl) h;
    notes = λ m x h. Fits-same m (note x m) (tier_congr (note x m) m refl refl refl) h;
    raises = λ m e h. h;
  }

  lifted : {A : Type 0} (r : Result A) → Keeps (lift r)
  unfolding lift
  lifted r = Triple-state (lift r) (λ m h. h)

  save_to_tier-Keeps :
      (t : TierName) (sid uid : String) (b : Bytes) (kv : KvData) (md : Option (Dict String))
      → Keeps (save_to_tier p c t sid uid b kv md)
  unfolding save_to_tier
  save_to_tier-Keeps t sid uid b kv md =
      Triple-bind _ _ (λ _. Fits) (lifted (token_count kv))
        λ tokens.
          Triple-bind _ _ (λ _. Fits) (lifted (num_blocks c.model tokens))
            λ blocks.
              Triple-bind _ _ (λ _. Fits)
                (Triple-state _ λ m h.
                  unfold modify in
                  Fits-same m (record_entry p c t sid uid (length b) tokens blocks md m)
                    (tier-record_entry p c t sid uid (length b) tokens blocks md m) h)
                (λ _. Triple-state _ (put_in-Fits t sid b))

  room : (t : TierName) (size : ℕ) → Keeps (ensure_space (evict_from_tier p) max_attempts t size)
  room t size =
      ensure_space-Keeps stable (evict_from_tier p) max_attempts t size
        (evict_at-Keeps stable levels t tt)

  save-Keeps :
      (sid uid : String) (kv : KvData) (md : Option (Dict String)) → Keeps (save p c sid uid kv md)
  unfolding save save_bytes
  save-Keeps sid uid kv md =
      Triple-bind _ _ (λ _. Fits) (lifted (c.serializer.serialize kv c.model))
        λ b.
          Triple-bind _ _ (λ _. Fits) (room hot (length b))
            λ _.
              Triple-bind _ _ (λ _. Fits) (Triple-gets _ (λ m h. h))
                λ full.
                  Triple-if full _ _
                    (λ _.
                      Triple-bind _ _ (λ _. Fits) (room warm (length b))
                        λ _. save_to_tier-Keeps warm sid uid b kv md)
                    (λ _. save_to_tier-Keeps hot sid uid b kv md)

  promote-Fits : (sid : String) (t : TierName) → Keeps (promote p sid t)
  promote-Fits sid t = promote-Keeps stable sid t tt (HasRoom-of_spent stable t tt (λ m h. h))

  -- Where no tier holds more than its capacity and the count of the hot tier is the number of
  -- bytes it holds, the same is so after whatever a client calls, whether the call returns or
  -- raises.
  pub after-Fits : (r : Request) (m : Manager S) → Fits m → Fits (after r m)
  unfolding after
  after-Fits (save_request sid uid kv md) m h =
      state_of_outcome Fits _ ((save-Keeps sid uid kv md).at m h)
  after-Fits (load_request sid) m h =
      state_of_outcome Fits _ ((load-Keeps Fits-IsServed sid (promote-Fits sid hot)).at m h)
  after-Fits (promote_request sid t) m h = state_of_outcome Fits _ ((promote-Fits sid t).at m h)
  after-Fits (demote_request sid) m h =
      state_of_outcome Fits _ ((demote-Keeps stable (λ _. tt) sid).at m h)
  after-Fits (delete_request sid) m h = state_of_outcome Fits _ ((delete-Keeps stable sid).at m h)
  after-Fits (evict_request t) m h =
      state_of_outcome Fits _ ((evict_at-Keeps stable levels t tt).at m h)
  after-Fits maintenance_request m h =
      state_of_outcome Fits _ ((run_maintenance-Keeps stable (λ _. tt)).at m h)

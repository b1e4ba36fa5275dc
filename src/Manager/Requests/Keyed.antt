-- ===== src/Manager/Requests/Keyed.antt =====
-- core/tiered_manager.py: the keys of the index under the operations of a caller.
use kv_cache_tier_persistenc.Prelude.{ℕ, String, refl, Option, length, Option-cases, inl, inr}
use kv_cache_tier_persistenc.Result.{Result, Result-cases}
use kv_cache_tier_persistenc.Exec.{Exec, lift, modify}
use kv_cache_tier_persistenc.Exec.Hoare.{
  Triple, Triple-bind, Triple-state, Triple-if, Triple-gets, state_of_outcome,
}
use kv_cache_tier_persistenc.Dict.{Dict}
use kv_cache_tier_persistenc.Dict
use kv_cache_tier_persistenc.Dict.Bytes.{Bytes}
use kv_cache_tier_persistenc.Tensor.{KvData, token_count}
use kv_cache_tier_persistenc.Tiers.Storage
use kv_cache_tier_persistenc.Tiers.Storage.{TierName, hot, warm}
use kv_cache_tier_persistenc.Index
use kv_cache_tier_persistenc.Eviction.Policy.{EvictionPolicy}
use kv_cache_tier_persistenc.Manager.{
  Manager, drop_entry, note, max_attempts, num_blocks, ensure_space, put_in, tier,
}
use kv_cache_tier_persistenc.Manager.Tiers.{index-set_tier}
use kv_cache_tier_persistenc.Manager.Keyed.{
  IsKeyed, Keyed, Keyed-IsStable, adjust-IsKeyed, remove-IsKeyed, put-IsKeyed,
}
use kv_cache_tier_persistenc.Manager.Stable.{IsStable, ensure_space-Keeps}
use kv_cache_tier_persistenc.Manager.Demotion.{evict_at-Keeps, delete-Keeps}
use kv_cache_tier_persistenc.Manager.Requests.{
  Settings, levels, evict_from_tier, promote, record_hit, record_entry, save_to_tier, save_bytes,
  save, touch, refresh, refreshed, insert_entry, new_entry,
}
use kv_cache_tier_persistenc.Manager.Requests.Stable.{
  IsServed, HasRoom-of_spent, promote-Keeps, demote-Keeps, run_maintenance-Keeps, load-Keeps,
}
use kv_cache_tier_persistenc.Manager.Requests.Fits.{
  Request, save_request, load_request, promote_request, demote_request, delete_request,
  evict_request, maintenance_request, after,
}

module _ {S : Type 0} (p : EvictionPolicy S) (c : Settings) where
  stable : IsStable p (Keyed p) (λ _. Keyed p) (λ sid b. Unit {0}) (λ _. Unit {0}) (λ _ _. Unit {0})
  stable = Keyed-IsStable p

  abbrev Keeps : {A : Type 0} → Exec (Manager S) A → Type 0
  Keeps x = Triple (Keyed p) x (λ _. Keyed p) (λ _. Keyed p)

  Keyed-IsServed : IsServed p c (Keyed p) (λ _. Keyed p)
  unfolding record_hit drop_entry note touch
  Keyed-IsServed = record {
    hits = λ m sid e h. adjust-IsKeyed m.index sid (touch m.now) (λ x. refl) h;
    drops = λ m sid h. remove-IsKeyed m.index sid h;
    notes = λ m x h. h;
    raises = λ m e h. h;
  }

  recorded :
      (t : TierName) (sid uid : String) (size tokens blocks : ℕ) (md : Option (Dict String))
      (m : Manager S)
      → Keyed p m
      → Keyed p (record_entry p c t sid uid size tokens blocks md m)
  unfolding record_entry refresh insert_entry Index.add refreshed
  recorded t sid uid size tokens blocks md m h = elim (Option-cases (Dict.get m.index sid)) [
    | inl q ↦
        rw (q, record_entry)
          (put-IsKeyed m.index (new_entry p c t sid uid size tokens blocks md m.now) h)
    | inr (x, q) ↦
        rw (q, record_entry)
          (adjust-IsKeyed m.index sid (refreshed t m.now size tokens blocks) (λ e. refl) h)
  ]

  put_in-Keyed :
      (t : TierName) (sid : String) (b : Bytes) (m : Manager S)
      → Keyed p m
      → Keyed p (put_in t sid b m).1
  unfolding put_in
  put_in-Keyed t sid b m h = elim (Result-cases (Storage.put (tier m t) sid b)) [
    | inl (st, w) ↦ rw (w, put_in, index-set_tier m t st) h
    | inr (e, w) ↦ rw (w, put_in) h
  ]

  lifted : {A : Type 0} (r : Result A) → Keeps (lift r)
  unfolding lift
  lifted r = Triple-state (lift r) (λ m h. h)

  save_to_tier-Keeps :
      (t : TierName) (sid uid : String) (b : Bytes) (kv : KvData) (md : Option (Dict String))
      → Keeps (save_to_tier p c t sid uid b kv md)
  unfolding save_to_tier
  save_to_tier-Keeps t sid uid b kv md =
      Triple-bind _ _ (λ _. Keyed p) (lifted (token_count kv))
        λ tokens.
          Triple-bind _ _ (λ _. Keyed p) (lifted (num_blocks c.model tokens))
            λ blocks.
              Triple-bind _ _ (λ _. Keyed p)
                (Triple-state _
                  λ m h. unfold modify in recorded t sid uid (length b) tokens blocks md m h)
                (λ _. Triple-state _ (put_in-Keyed t sid b))

  room : (t : TierName) (size : ℕ) → Keeps (ensure_space (evict_from_tier p) max_attempts t size)
  room t size =
      ensure_space-Keeps stable (evict_from_tier p) max_attempts t size
        (evict_at-Keeps stable levels t tt)

  save-Keeps :
      (sid uid : String) (kv : KvData) (md : Option (Dict String)) → Keeps (save p c sid uid kv md)
  unfolding save save_bytes
  save-Keeps sid uid kv md =
      Triple-bind _ _ (λ _. Keyed p) (lifted (c.serializer.serialize kv c.model))
        λ b.
          Triple-bind _ _ (λ _. Keyed p) (room hot (length b))
            λ _.
              Triple-bind _ _ (λ _. Keyed p) (Triple-gets _ (λ m h. h))
                λ full.
                  Triple-if full _ _
                    (λ _.
                      Triple-bind _ _ (λ _. Keyed p) (room warm (length b))
                        λ _. save_to_tier-Keeps warm sid uid b kv md)
                    (λ _. save_to_tier-Keeps hot sid uid b kv md)

  promote-Keyed : (sid : String) (t : TierName) → Keeps (promote p sid t)
  promote-Keyed sid t = promote-Keeps stable sid t tt (HasRoom-of_spent stable t tt (λ m h. h))

  -- Where the index has each key once, and under it an entry with that session id, the same is
  -- so after whatever a client calls, whether the call returns or raises.
  pub after-IsKeyed :
      (r : Request) (m : Manager S) → IsKeyed m.index → IsKeyed (after p c r m).index
  unfolding after
  after-IsKeyed (save_request sid uid kv md) m h =
      state_of_outcome (Keyed p) _ ((save-Keeps sid uid kv md).at m h)
  after-IsKeyed (load_request sid) m h =
      state_of_outcome (Keyed p) _ ((load-Keeps Keyed-IsServed sid (promote-Keyed sid hot)).at m h)
  after-IsKeyed (promote_request sid t) m h =
      state_of_outcome (Keyed p) _ ((promote-Keyed sid t).at m h)
  after-IsKeyed (demote_request sid) m h =
      state_of_outcome (Keyed p) _ ((demote-Keeps stable (λ _. tt) sid).at m h)
  after-IsKeyed (delete_request sid) m h =
      state_of_outcome (Keyed p) _ ((delete-Keeps stable sid).at m h)
  after-IsKeyed (evict_request t) m h =
      state_of_outcome (Keyed p) _ ((evict_at-Keeps stable levels t tt).at m h)
  after-IsKeyed maintenance_request m h =
      state_of_outcome (Keyed p) _ ((run_maintenance-Keeps stable (λ _. tt)).at m h)

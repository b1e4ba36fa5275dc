-- ===== src/Manager/Requests/SaveReady.antt =====
-- core/tiered_manager.py: how `save` ends.
use kv_cache_tier_persistenc.Prelude.{
  ℕ, String, ◌≡◌, refl, Bool, true, false, Option, if◌then◌else◌, length, inl, inr, Option-cases,
}
use kv_cache_tier_persistenc.Result.{Error, Result, ok, raise, memory_error}
use kv_cache_tier_persistenc.Exec.{◌>>=◌}
use kv_cache_tier_persistenc.Exec.Hoare.{
  Triple, Outcome, Triple-bind, Triple-if, Triple-gets, Triple-raises,
}
use kv_cache_tier_persistenc.Dict
use kv_cache_tier_persistenc.Dict.{Dict}
use kv_cache_tier_persistenc.Dict.Bytes.{Bytes}
use kv_cache_tier_persistenc.Tensor.{KvData, token_count}
use kv_cache_tier_persistenc.Tiers.Storage
use kv_cache_tier_persistenc.Tiers.Storage.{TierName, hot, warm, cold, StorageTier}
use kv_cache_tier_persistenc.Tiers.Storage.Laws.{put-IsHealthy, IsHealthy, put_raises}
use kv_cache_tier_persistenc.Index
use kv_cache_tier_persistenc.Index.{CacheEntry, tier_eq}
use kv_cache_tier_persistenc.Eviction.Policy.{EvictionPolicy, IsSound}
use kv_cache_tier_persistenc.Manager.{Manager, tier, put_in, ensure_space, max_attempts, num_blocks}
use kv_cache_tier_persistenc.Manager.Tiers.{tier-set_tier, index-set_tier}
use kv_cache_tier_persistenc.Manager.Ready.{IsReady, IsReady-IsStable}
use kv_cache_tier_persistenc.Manager.Stable.{ensure_space-Keeps}
use kv_cache_tier_persistenc.Manager.Demotion.{evict_at-Keeps}
use kv_cache_tier_persistenc.Manager.Requests.{
  Settings, levels, evict_from_tier, refresh, insert_entry, record_entry, save_to_tier, save_bytes,
  save,
}
use kv_cache_tier_persistenc.Manager.Requests.Saved.{tier-record_entry}
use kv_cache_tier_persistenc.Manager.Requests.Total.{levels_enough}

-- The state is ready after a raise too, and the exception is `MemoryError`.
abbrev pub OutOfMemory : {S : Type 0} → Error → Manager S → Type 0
OutOfMemory e m = (e ≡ memory_error) × IsReady m

module _ {S : Type 0} (p : EvictionPolicy S) (c : Settings) (sound : IsSound p) where
  IsReady-record_entry :
      (t : TierName) (sid uid : String) (size tokens blocks : ℕ) (md : Option (Dict String))
      (m : Manager S)
      → IsReady m
      → IsReady (record_entry p c t sid uid size tokens blocks md m)
  IsReady-record_entry t sid uid size tokens blocks md m h = record {
    healthy = λ u. rw (tier-record_entry p c t sid uid size tokens blocks md m u) (h.healthy u);
    unique = unique;
  }
    where
      unique : Dict.IsUnique (record_entry p c t sid uid size tokens blocks md m).index
      unique =
          unfold record_entry refresh insert_entry Index.add in
          elim (Option-cases (Dict.get m.index sid)) [
            | inl q ↦ rw (q, record_entry) (Dict.put-IsUnique m.index _ _ h.unique)
            | inr (x, q) ↦ rw (q, record_entry) (Dict.adjust-IsUnique m.index sid _ h.unique)
          ]

  put_in-Ready :
      (t : TierName) (sid : String) (b : Bytes)
      → Triple (IsReady {S = S}) (put_in t sid b) (λ _. IsReady) OutOfMemory
  unfolding put_in
  put_in-Ready t sid b = record { at = λ m h. outcome m h (Storage.put (tier m t) sid b) refl }
    where
      healthy :
          (m : Manager S) (st : StorageTier) (u : TierName) (x : Bool)
          → IsReady m
          → IsHealthy st
          → IsHealthy (if x then st else tier m u)
      healthy m st u true h k = k
      healthy m st u false h k = h.healthy u

      outcome :
          (m : Manager S)
          → IsReady m
          → (r : Result StorageTier) → Storage.put (tier m t) sid b ≡ r
          → Outcome (λ _. IsReady) OutOfMemory (put_in t sid b m)
      outcome m h (ok st) w =
          rw (w, put_in)
            (record {
              healthy = λ u.
                  rw (tier-set_tier m t u st) (
                    healthy m st u (tier_eq t u) h
                      (put-IsHealthy (tier m t) sid b (h.healthy t) w));
              unique = rw (index-set_tier m t st) h.unique;
            })
      outcome m h (raise e) w = rw (w, put_in) (put_raises (tier m t) sid b e (h.healthy t) w, h)

  save_to_tier-Ready :
      (t : TierName) (sid uid : String) (b : Bytes) (kv : KvData) (md : Option (Dict String))
      (tokens blocks : ℕ)
      → token_count kv ≡ ok tokens
      → num_blocks c.model tokens ≡ ok blocks
      → Triple IsReady (save_to_tier p c t sid uid b kv md) (λ _. IsReady) OutOfMemory
  unfolding save_to_tier ◌>>=◌
  save_to_tier-Ready t sid uid b kv md tokens blocks et eb = record {
    at = λ m h.
        rw (et, eb)
          ((put_in-Ready t sid b).at _
            (IsReady-record_entry t sid uid (length b) tokens blocks md m h));
  }

  room :
      (t : TierName) (size : ℕ)
      → Triple IsReady
          (ensure_space (evict_from_tier p) max_attempts t size)
          (λ _. IsReady)
          OutOfMemory
  room t size =
      Triple-raises OutOfMemory (λ _ m h. absurd h)
        (ensure_space-Keeps (IsReady-IsStable p sound) (evict_from_tier p) max_attempts t size
          (evict_at-Keeps (IsReady-IsStable p sound) levels t (levels_enough t)))

  save_bytes-Ready :
      (sid uid : String) (b : Bytes) (kv : KvData) (md : Option (Dict String)) (tokens blocks : ℕ)
      → token_count kv ≡ ok tokens
      → num_blocks c.model tokens ≡ ok blocks
      → Triple IsReady (save_bytes p c sid uid b kv md) (λ _. IsReady) OutOfMemory
  unfolding save_bytes
  save_bytes-Ready sid uid b kv md tokens blocks et eb =
      Triple-bind _ _ (λ _. IsReady) (room hot (length b))
        λ _.
          Triple-bind _ _ (λ _. IsReady) (Triple-gets _ (λ m h. h))
            λ full.
              Triple-if full _ _
                (λ _.
                  Triple-bind _ _ (λ _. IsReady) (room warm (length b))
                    λ _. save_to_tier-Ready warm sid uid b kv md tokens blocks et eb)
                (λ _. save_to_tier-Ready hot sid uid b kv md tokens blocks et eb)

  -- With a sound policy, from a ready state, a save of data that serializes, with token and
  -- block counts, returns or raises `MemoryError`; in both cases it leaves a ready state.
  pub save-Ready :
      (sid uid : String) (kv : KvData) (md : Option (Dict String)) (m : Manager S) (b : Bytes)
      (tokens blocks : ℕ)
      → c.serializer.serialize kv c.model ≡ ok b
      → token_count kv ≡ ok tokens
      → num_blocks c.model tokens ≡ ok blocks
      → IsReady m
      → Outcome (λ _. IsReady) OutOfMemory (save p c sid uid kv md m)
  unfolding save ◌>>=◌
  save-Ready sid uid kv md m b tokens blocks e et eb h =
      rw e ((save_bytes-Ready sid uid b kv md tokens blocks et eb).at m h)

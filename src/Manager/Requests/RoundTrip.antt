-- ===== src/Manager/Requests/RoundTrip.antt =====
-- core/tiered_manager.py: `load`, and `load` after `save`.
use kv_cache_tier_persistenc.Prelude.{
  String, ◌≡◌, refl, false, Option, some, inl, inr, ◌∙◌, Bool-cases,
}
use kv_cache_tier_persistenc.Result.{Result, ok}
use kv_cache_tier_persistenc.Exec.{◌>>=◌}
use kv_cache_tier_persistenc.Dict
use kv_cache_tier_persistenc.Dict.{Dict}
use kv_cache_tier_persistenc.Dict.Bytes.{Bytes}
use kv_cache_tier_persistenc.Tensor.{KvData}
use kv_cache_tier_persistenc.Tiers.Storage.{hot}
use kv_cache_tier_persistenc.Tiers.Storage.Laws.{get_of_healthy}
use kv_cache_tier_persistenc.Index.{CacheEntry, tier_eq}
use kv_cache_tier_persistenc.Eviction.Policy.{EvictionPolicy, IsSound}
use kv_cache_tier_persistenc.Manager.{Manager, tier, is_empty}
use kv_cache_tier_persistenc.Manager.Tiers.{tier_congr}
use kv_cache_tier_persistenc.Manager.Ready.{IsReady}
use kv_cache_tier_persistenc.Manager.Holds.{Holds}
use kv_cache_tier_persistenc.Manager.Requests.{
  Settings, load, load_found, load_read, load_hit, record_hit, touch,
}
use kv_cache_tier_persistenc.Manager.{num_blocks}
use kv_cache_tier_persistenc.Exec.Hoare.{Outcome}
use kv_cache_tier_persistenc.Tensor.{token_count}
use kv_cache_tier_persistenc.Result.{Error, raise, memory_error}
use kv_cache_tier_persistenc.Manager.Requests.{save}
use kv_cache_tier_persistenc.Prelude.{ℕ, eq_refl}
use kv_cache_tier_persistenc.Manager.Requests.Saved.{
  HoldsOthers, HoldsSaved, with_content, save-Holds,
}
use kv_cache_tier_persistenc.Manager.Requests.SaveReady.{OutOfMemory, save-Ready}
use kv_cache_tier_persistenc.Manager.Requests.Holds.{hits, promote-Holds}
use kv_cache_tier_persistenc.Manager.Requests.Total.{promote_total}

-- The load has returned `r`, in a state that is ready and holds `content`.
pub record Loaded {S : Type 0} (content : String → Bytes) (r : Option KvData)
    (x : Result (Option KvData) × Manager S) : Type 0 where
  pub state : Manager S
  pub returned : x ≡ (ok r, state)
  pub ready : IsReady state
  pub holds : Holds content state

module _ {S : Type 0} (p : EvictionPolicy S) (c : Settings) (sound : IsSound p)
    (content : String → Bytes) where
  IsReady-record_hit :
      (m : Manager S) (sid : String) (e : CacheEntry) → IsReady m → IsReady (record_hit p c sid e m)
  unfolding record_hit
  IsReady-record_hit m sid e h = record {
    healthy = λ t. rw (tier_congr (record_hit p c sid e m) m refl refl refl t) (h.healthy t);
    unique = Dict.adjust-IsUnique m.index sid (touch m.now) h.unique;
  }

  load_hit-Loaded :
      (sid : String) (e : CacheEntry) (b : Bytes) (kv : KvData) (m : Manager S)
      → c.serializer.deserialize b ≡ ok kv
      → IsReady m
      → Holds content m
      → Loaded content (some kv) (load_hit p c sid e b m)
  unfolding load_hit ◌>>=◌
  load_hit-Loaded sid e b kv m d ready holds = elim (Bool-cases (tier_eq e.tier hot)) [
    | inl q ↦ record { state = n; returned = rw (d, q); ready = ready'; holds = holds' }
    | inr q ↦
        let (x, m', r, ready'') = promote_total p sound sid hot n ready' in
        record {
          state = m';
          returned = rw (d, q, r);
          ready = ready'';
          holds = rw r at (promote-Holds p c content sid hot n holds');
        }
  ]
    where
      n : Manager S
      n = record_hit p c sid e m

      ready' : IsReady n
      ready' = IsReady-record_hit m sid e ready

      holds' : Holds content n
      holds' = hits p c content m sid e holds

  -- With a sound policy, in a ready state in which every session holds its content, a session of
  -- the index whose content is not empty and deserializes loads as what it deserializes to,
  -- whichever tier it is in; the load returns, in a ready state in which every session still
  -- holds its content.
  pub load-Loaded :
      (sid : String) (e : CacheEntry) (kv : KvData) (m : Manager S)
      → IsReady m
      → Holds content m
      → Dict.get m.index sid ≡ some e
      → is_empty (content sid) ≡ false
      → c.serializer.deserialize (content sid) ≡ ok kv
      → Loaded content (some kv) (load p c sid m)
  unfolding load load_found load_read ◌>>=◌
  load-Loaded sid e kv m ready holds g full d =
      let found =
        get_of_healthy (tier m e.tier) sid (ready.healthy e.tier) ∙ (holds.at sid e g).0 in
      rw (g, load_found, found, load_read, full)
        (load_hit-Loaded sid e (content sid) kv m d ready holds)

-- The exception is `MemoryError`, and the other sessions hold what they held.
abbrev pub OtherwiseKept : {S : Type 0} → (String → Bytes) → String → Error → Manager S → Type 0
OtherwiseKept content sid e m = (e ≡ memory_error) × IsReady m × HoldsOthers sid content m

module _ {S : Type 0} (p : EvictionPolicy S) (c : Settings) (sound : IsSound p)
    (content : String → Bytes) where
  -- In a ready state in which every session holds its content, with a sound policy, and for data
  -- that serialize to bytes that are not empty and deserialize, with token and block counts: a
  -- load after a save that returns gives what the bytes deserialize to, and each session of the
  -- index still holds what it should; a save that raises raises `MemoryError`, and leaves a
  -- ready state in which the other sessions hold what they held.
  pub save-load :
      (sid uid : String) (kv kv' : KvData) (md : Option (Dict String)) (m : Manager S) (b : Bytes)
      (tokens blocks : ℕ)
      → c.serializer.serialize kv c.model ≡ ok b
      → c.serializer.deserialize b ≡ ok kv'
      → is_empty b ≡ false
      → token_count kv ≡ ok tokens
      → num_blocks c.model tokens ≡ ok blocks
      → IsReady m
      → Holds content m
      → Outcome
          (λ _ m'. Loaded (with_content content sid b) (some kv') (load p c sid m'))
          (OtherwiseKept content sid)
          (save p c sid uid kv md m)
  save-load sid uid kv kv' md m b tokens blocks es ed full et eb ready holds =
      joined (save p c sid uid kv md m) (save-Holds p c content sid uid kv md m b es holds)
        (save-Ready p c sound sid uid kv md m b tokens blocks es et eb ready)
    where
      joined :
          (r : Result (Unit {0}) × Manager S)
          → Outcome
              (λ _. HoldsSaved sid (with_content content sid b))
              (λ _. HoldsOthers sid content)
              r
          → Outcome (λ _. IsReady) OutOfMemory r
          → Outcome
              (λ _ m'. Loaded (with_content content sid b) (some kv') (load p c sid m'))
              (OtherwiseKept content sid)
              r
      joined (raise e, n) h k = (k.0, k.1, h)
      joined (ok u, n) h k =
          load-Loaded p c sound (with_content content sid b) sid h.entry kv' n k h.holds h.indexed
            (rw (eq_refl sid) full) (rw (eq_refl sid) ed)

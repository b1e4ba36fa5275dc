-- ===== src/Manager/Requests/Saved.antt =====
-- core/tiered_manager.py: what `save` stores.
use kv_cache_tier_persistenc.Prelude.{
  ℕ, String, ◌≡◌, ◌≢◌, refl, Option, some, arith, str_eq, eq_iff, eq_refl, if◌then◌else◌, length,
  inl, inr, Option-cases,
}
use kv_cache_tier_persistenc.Result.{Result, ok, raise, Result-cases}
use kv_cache_tier_persistenc.Exec.{modify, Exec, lift, ◌>>=◌, ◌>>◌}
use kv_cache_tier_persistenc.Exec.Hoare.{
  Triple, Outcome, Triple-gets, Triple-if, Triple-bind, Triple-raises,
}
use kv_cache_tier_persistenc.Dict
use kv_cache_tier_persistenc.Dict.{Dict}
use kv_cache_tier_persistenc.Dict.Bytes.{Bytes}
use kv_cache_tier_persistenc.Tensor.{KvData, token_count}
use kv_cache_tier_persistenc.Tiers.Storage
use kv_cache_tier_persistenc.Tiers.Storage.{TierName, hot, warm, cold, StorageTier, files}
use kv_cache_tier_persistenc.Tiers.Storage.Laws.{files-put}
use kv_cache_tier_persistenc.Index
use kv_cache_tier_persistenc.Index.{CacheEntry, tier_eq}
use kv_cache_tier_persistenc.Eviction.Policy.{EvictionPolicy}
use kv_cache_tier_persistenc.Manager.{
  Manager, tier, set_tier, put_in, ensure_space, max_attempts, num_blocks,
}
use kv_cache_tier_persistenc.Manager.Tiers.{
  tier-set_tier, index-set_tier, stored, tier_eq_refl, eq_of_tier_eq,
}
use kv_cache_tier_persistenc.Manager.Holds.{Holds, Holds-IsStable}
use kv_cache_tier_persistenc.Manager.Stable.{ensure_space-Keeps}
use kv_cache_tier_persistenc.Manager.Demotion.{evict_at-Keeps}
use kv_cache_tier_persistenc.Manager.Requests.{
  Settings, levels, refreshed, evict_from_tier, refresh, new_entry, insert_entry, record_entry,
  save_to_tier, save_bytes, save,
}

-- The contents after a save of `b` under `sid`.
abbrev pub with_content : (String → Bytes) → String → Bytes → String → Bytes
with_content content sid b j = if str_eq sid j then b else content j

-- Each session but `sid` is stored as its entry says.
pub record HoldsOthers {S : Type 0} (sid : String) (content : String → Bytes) (m : Manager S)
    : Type 0 where
  pub at :
      (j : String) (e : CacheEntry)
      → sid ≢ j
      → Dict.get m.index j ≡ some e
      → (stored m e.tier j ≡ some (content j)) × (e.size_bytes ≡ length (content j))

-- The session is in the index, and each session is stored as its entry says.
pub record HoldsSaved {S : Type 0} (sid : String) (content : String → Bytes) (m : Manager S)
    : Type 0 where
  pub holds : Holds content m
  pub entry : CacheEntry
  pub indexed : Dict.get m.index sid ≡ some entry

module _ {S : Type 0} (p : EvictionPolicy S) (c : Settings) where
  -- What `_save_to_tier` writes to the index before it writes to the tier.
  recorded :
      (t : TierName) (sid uid : String) (size tokens blocks : ℕ) (md : Option (Dict String))
      (m : Manager S)
      → (e : CacheEntry) × (e.tier ≡ t)
        × (e.size_bytes ≡ size)
        × ((j : String)
            → Dict.get (record_entry p c t sid uid size tokens blocks md m).index j
              ≡ (if str_eq sid j then some e else Dict.get m.index j))
  unfolding record_entry refresh insert_entry new_entry Index.add
  recorded t sid uid size tokens blocks md m = elim (Option-cases (Dict.get m.index sid)) [
    | inl q ↦ (
      new_entry p c t sid uid size tokens blocks md m.now,
      refl,
      refl,
      λ j.
          rw (q, record_entry)
            (Dict.get-put m.index sid j (new_entry p c t sid uid size tokens blocks md m.now)),
    )
    | inr (x, q) ↦ (
      refreshed t m.now size tokens blocks x,
      refl,
      refl,
      λ j.
          rw (q, record_entry)
            (ground (
              arith,
              Dict.get-adjust m.index sid j (refreshed t m.now size tokens blocks),
              eq_iff sid j,
            )),
    )
  ]

  pub tier-record_entry :
      (t : TierName) (sid uid : String) (size tokens blocks : ℕ) (md : Option (Dict String))
      (m : Manager S) (u : TierName)
      → tier (record_entry p c t sid uid size tokens blocks md m) u ≡ tier m u
  unfolding record_entry refresh insert_entry tier
  tier-record_entry t sid uid size tokens blocks md m u = ground arith

  module _ (content : String → Bytes) (sid : String) where
    others : (m : Manager S) → Holds content m → HoldsOthers sid content m
    others m h = record { at = λ j e _. h.at j e }

    module _ (m n : Manager S) (t : TierName) (e : CacheEntry)
        (i : (j : String)
          → Dict.get n.index j ≡ (if str_eq sid j then some e else Dict.get m.index j))
        (same : (u : TierName) → tier n u ≡ tier m u) (h : Holds content m) where
      spared : HoldsOthers sid content n
      spared = record {
        at = λ j x apart q. ground (arith, i j, same x.tier, eq_iff sid j, h.at j x);
      }

      written :
          (b : Bytes) (st : StorageTier)
          → e.tier ≡ t
          → e.size_bytes ≡ length b
          → Storage.put (tier n t) sid b ≡ ok st
          → HoldsSaved sid (with_content content sid b) (set_tier n t st)
      written b st et es w = record {
        holds = record {
          at = λ j x q. ground (
            arith,
            index-set_tier n t st,
            tier-set_tier n t x.tier st,
            i j,
            same x.tier,
            eq_iff sid j,
            tier_eq_refl t,
            eq_of_tier_eq t x.tier,
            files-put (tier n t) sid b j w,
            h.at j x,
          );
        };
        entry = e;
        indexed = ground (arith, index-set_tier n t st, i sid, eq_refl sid);
      }

    put_in-Saved :
        (m n : Manager S) (t : TierName) (e : CacheEntry) (b : Bytes)
        → ((j : String)
            → Dict.get n.index j ≡ (if str_eq sid j then some e else Dict.get m.index j))
        → ((u : TierName) → tier n u ≡ tier m u)
        → e.tier ≡ t
        → e.size_bytes ≡ length b
        → Holds content m
        → Outcome
            (λ _. HoldsSaved sid (with_content content sid b))
            (λ _. HoldsOthers sid content)
            (put_in t sid b n)
    unfolding put_in
    put_in-Saved m n t e b i same et es h = elim (Result-cases (Storage.put (tier n t) sid b)) [
      | inl (st, w) ↦ rw (w, put_in) (written m n t e i same h b st et es w)
      | inr (x, w) ↦ rw (w, put_in) (spared m n t e i same h)
    ]

    abbrev Saves : {A : Type 0} → Bytes → Exec (Manager S) A → Type 0
    Saves b x =
        Triple (Holds content) x (λ _. HoldsSaved sid (with_content content sid b))
          (λ _. HoldsOthers sid content)

    write-Saves :
        (t : TierName) (uid : String) (b : Bytes) (tokens blocks : ℕ) (md : Option (Dict String))
        → Saves b
            (do modify (record_entry p c t sid uid (length b) tokens blocks md); put_in t sid b)
    unfolding ◌>>=◌
    write-Saves t uid b tokens blocks md = record {
      at = λ m h.
          let (e, et, es, i) = recorded t sid uid (length b) tokens blocks md m in
          put_in-Saved m (record_entry p c t sid uid (length b) tokens blocks md m) t e b i
            (tier-record_entry t sid uid (length b) tokens blocks md m) et es h;
    }

    save_to_tier-Saves :
        (t : TierName) (uid : String) (b : Bytes) (kv : KvData) (md : Option (Dict String))
        → Saves b (save_to_tier p c t sid uid b kv md)
    unfolding save_to_tier
    save_to_tier-Saves t uid b kv md =
        Triple-bind _ _ (λ _. Holds content) (lifted (token_count kv))
          λ tokens.
            Triple-bind _ _ (λ _. Holds content) (lifted (num_blocks c.model tokens))
              λ blocks. write-Saves t uid b tokens blocks md
      where
        lifted :
            {A : Type 0} (r : Result A)
            → Triple
                (Holds {S = S} content)
                (lift r)
                (λ _. Holds content)
                (λ _. HoldsOthers sid content)
        lifted (ok a) = record { at = λ m h. unfold lift in h }
        lifted (raise e) = record { at = λ m h. unfold lift in others m h }

    room :
        (t : TierName) (size : ℕ)
        → Triple
            (Holds content)
            (ensure_space (evict_from_tier p) max_attempts t size)
            (λ _. Holds content)
            (λ _. HoldsOthers sid content)
    room t size =
        Triple-raises (λ _. HoldsOthers sid content) (λ _ m h. others m h)
          (ensure_space-Keeps (Holds-IsStable content p) (evict_from_tier p) max_attempts t size
            (evict_at-Keeps (Holds-IsStable content p) levels t tt))

    save_bytes-Saves :
        (uid : String) (b : Bytes) (kv : KvData) (md : Option (Dict String))
        → Saves b (save_bytes p c sid uid b kv md)
    unfolding save_bytes
    save_bytes-Saves uid b kv md =
        Triple-bind _ _ (λ _. Holds content) (room hot (length b))
          λ _.
            Triple-bind _ _ (λ _. Holds content) (Triple-gets _ (λ m h. h))
              λ full.
                Triple-if full _ _
                  (λ _.
                    Triple-bind _ _ (λ _. Holds content) (room warm (length b))
                      λ _. save_to_tier-Saves warm uid b kv md)
                  (λ _. save_to_tier-Saves hot uid b kv md)

    -- Where every session of the index holds its content and the data serialize: after a save
    -- that returns, the session is in the index and holds the serialized bytes in the tier that
    -- its entry names, and every other session what it held; after a save that raises, the other
    -- sessions still do.
    pub save-Holds :
        (uid : String) (kv : KvData) (md : Option (Dict String)) (m : Manager S) (b : Bytes)
        → c.serializer.serialize kv c.model ≡ ok b
        → Holds content m
        → Outcome
            (λ _. HoldsSaved sid (with_content content sid b))
            (λ _. HoldsOthers sid content)
            (save p c sid uid kv md m)
    unfolding save ◌>>=◌
    save-Holds uid kv md m b e h = rw e ((save_bytes-Saves uid b kv md).at m h)

-- ===== src/Manager/Requests.antt =====
-- core/tiered_manager.py: the operations that a caller uses, over those of the parent module.
pub mod Stable
pub mod Holds
pub mod Fits
pub mod Saved
pub mod Total
pub mod SaveReady
pub mod RoundTrip
pub mod Keyed
pub mod Traces
use kv_cache_tier_persistenc.Prelude.{
  ℕ, zero, suc, ◌+◌, String, Bool, true, false, Option, none, some, List, [], ◌∷◌, ◌++◌,
  if◌then◌else◌, length,
}
use kv_cache_tier_persistenc.Result.{out_of_depth}
use kv_cache_tier_persistenc.Exec.{Exec, pure, throw, lift, gets, modify, ◌>>=◌, ◌>>◌}
use kv_cache_tier_persistenc.Dict
use kv_cache_tier_persistenc.Dict.{Dict}
use kv_cache_tier_persistenc.Dict.Bytes.{Bytes}
use kv_cache_tier_persistenc.Config.{ModelConfig}
use kv_cache_tier_persistenc.Tensor.{KvData, token_count}
use kv_cache_tier_persistenc.Tiers.Storage
use kv_cache_tier_persistenc.Tiers.Storage.{TierName, hot, warm, cold, TierUsage}
use kv_cache_tier_persistenc.Index
use kv_cache_tier_persistenc.Index.{CacheEntry, CacheIndex, IndexStats, tier_eq}
use kv_cache_tier_persistenc.Eviction.Policy.{EvictionPolicy}
use kv_cache_tier_persistenc.Manager.{
  Manager, CacheSerializer, hit, miss_not_found, miss_missing_data, num_blocks, is_empty, tier,
  put_in, drop_entry, note, relocate, ensure_space, max_attempts, demote_with, evict_at,
}

-- What the constructor fixes. `config_hash` is `str(hash(str(config.model)))`.
pub record Settings : Type 0 where
  pub model : ModelConfig
  pub serializer : CacheSerializer
  pub config_hash : ModelConfig → String

-- The levels of eviction: hot into warm, warm into cold, out of cold.
abbrev pub levels : ℕ
levels = 3

abbrev pub metadata_or_empty : Option (Dict String) → Dict String
metadata_or_empty none = []
metadata_or_empty (some metadata) = metadata

-- the fields that a load writes
unfoldable pub touch : ℕ → CacheEntry → CacheEntry
touch now e = record e { last_accessed = now; access_count = e.access_count + 1 }

-- the fields that a save writes to an entry that exists
unfoldable pub refreshed : TierName → ℕ → ℕ → ℕ → ℕ → CacheEntry → CacheEntry
refreshed t now size tokens blocks e = record e {
  tier = t;
  last_accessed = now;
  size_bytes = size;
  token_count = tokens;
  num_blocks = blocks;
}

module _ {S : Type 0} where
  -- An eviction takes an entry out of the target, so a round for each entry is enough.
  abbrev pub rounds : Manager S → ℕ
  rounds m = suc (length m.index)

  -- the loop of `promote`: it gives up when nothing can be evicted
  unfoldable pub make_room :
      (TierName → Exec (Manager S) Bool) → ℕ → TierName → ℕ → Exec (Manager S) Bool
  make_room evict zero t size = throw out_of_depth
  make_room evict (suc rounds) t size =
      let again = make_room evict rounds t size in
      do
        full ← gets (λ m. Storage.is_full (tier m t) size)
        if full then (do evicted ← evict t; if evicted then again else pure false) else pure true

  unfoldable pub refresh : TierName → ℕ → ℕ → ℕ → String → Manager S → Manager S
  unfolding refreshed
  refresh t size tokens blocks sid m = record m {
    index = Dict.adjust m.index sid (refreshed t m.now size tokens blocks);
  }

module _ {S : Type 0} (p : EvictionPolicy S) where
  abbrev pub evict_from_tier : TierName → Exec (Manager S) Bool
  evict_from_tier = evict_at p levels

  abbrev pub demote : String → Exec (Manager S) Bool
  demote = demote_with p evict_from_tier

  promote_room : String → TierName → TierName → Bytes → Bool → Exec (Manager S) Bool
  promote_room sid source target content false = pure false
  promote_room sid source target content true = do relocate sid source target content; pure true

  promote_read : String → TierName → TierName → Option Bytes → Exec (Manager S) Bool
  promote_read sid source target none = pure false
  promote_read sid source target (some content) = if is_empty content then pure false else do
    limit ← gets rounds
    room ← make_room evict_from_tier limit target (length content)
    promote_room sid source target content room

  promote_found : String → TierName → Option CacheEntry → Exec (Manager S) Bool
  promote_found sid target none = pure false
  promote_found sid target (some entry) = if tier_eq entry.tier target then pure false else do
    found ← gets (λ m. Storage.get (tier m entry.tier) sid)
    promote_read sid entry.tier target found

  unfoldable pub promote : String → TierName → Exec (Manager S) Bool
  unfolding promote_room promote_read promote_found
  promote sid target = do entry ← gets (λ m. Dict.get m.index sid); promote_found sid target entry

  expired : Manager S → CacheIndex → List String
  expired m [] = []
  expired m ((k, e) ∷ index) =
      let rest = expired m index in if p.should_evict m.policy m.now k e then k ∷ rest else rest

  demote_all : List String → Exec (Manager S) (Unit {0})
  demote_all [] = pure tt
  demote_all (sid ∷ rest) = do demote sid; demote_all rest

  unfoldable pub run_maintenance : Exec (Manager S) (Unit {0})
  unfolding expired demote_all
  run_maintenance = do sids ← gets (λ m. expired m m.index); demote_all sids

module _ {S : Type 0} (p : EvictionPolicy S) (c : Settings) where
  -- the entry that `_save_to_tier` makes for a session that is new
  unfoldable pub new_entry :
      TierName → String → String → ℕ → ℕ → ℕ → Option (Dict String) → ℕ → CacheEntry
  new_entry t sid uid size tokens blocks metadata now = record {
    session_id = sid;
    user_id = uid;
    model_config_hash = c.config_hash c.model;
    created_at = now;
    last_accessed = now;
    token_count = tokens;
    num_blocks = blocks;
    tier = t;
    size_bytes = size;
    access_count = 1;
    metadata = metadata_or_empty metadata;
  }

  -- `self.index.add(entry)` and `self.eviction_policy.on_insert(…)`
  unfoldable pub insert_entry : CacheEntry → Manager S → Manager S
  insert_entry e m = record m {
    index = Index.add m.index e;
    policy = p.on_insert m.policy m.now e.session_id e;
  }

  unfoldable pub record_entry :
      TierName → String → String → ℕ → ℕ → ℕ → Option (Dict String) → Manager S → Manager S
  record_entry t sid uid size tokens blocks metadata m = elim (Dict.get m.index sid) [
    | some e ↦ refresh t size tokens blocks sid m
    | none ↦ insert_entry (new_entry t sid uid size tokens blocks metadata m.now) m
  ]

  unfoldable pub save_to_tier :
      TierName
      → String
      → String
      → Bytes
      → KvData
      → Option (Dict String)
      → Exec (Manager S) (Unit {0})
  unfolding record_entry
  save_to_tier t sid uid content kv metadata = do
    tokens ← lift (token_count kv)
    blocks ← lift (num_blocks c.model tokens)
    modify (record_entry t sid uid (length content) tokens blocks metadata)
    put_in t sid content

  save_bytes : String → String → Bytes → KvData → Option (Dict String) → Exec (Manager S) (Unit {0})
  save_bytes sid uid content kv metadata = do
    ensure_space (evict_from_tier p) max_attempts hot (length content)
    full ← gets (λ m. Storage.is_full (tier m hot) (length content))
    if full
        then (do
          ensure_space (evict_from_tier p) max_attempts warm (length content)
          save_to_tier warm sid uid content kv metadata)
        else save_to_tier hot sid uid content kv metadata

  unfoldable pub save :
      String → String → KvData → Option (Dict String) → Exec (Manager S) (Unit {0})
  unfolding save_bytes
  save sid uid kv metadata = do
    content ← lift (c.serializer.serialize kv c.model)
    save_bytes sid uid content kv metadata

  -- the record of a hit: the entry's fields, then the policy, which sees the new fields
  unfoldable pub record_hit : String → CacheEntry → Manager S → Manager S
  record_hit sid e m = record m {
    index = Dict.adjust m.index sid (touch m.now);
    policy = p.on_access m.policy m.now sid (touch m.now e);
    metrics = m.metrics ++ hit e.tier ∷ [];
  }

  load_hit : String → CacheEntry → Bytes → Exec (Manager S) (Option KvData)
  load_hit sid entry content = do
    modify (record_hit sid entry)
    kv ← lift (c.serializer.deserialize content)
    if tier_eq entry.tier hot then pure (some kv) else (do promote p sid hot; pure (some kv))

  -- the index is out of step with the storage
  load_missing : String → TierName → Exec (Manager S) (Option KvData)
  load_missing sid t = do modify (drop_entry sid); modify (note (miss_missing_data t)); pure none

  load_read : String → CacheEntry → Option Bytes → Exec (Manager S) (Option KvData)
  load_read sid entry none = load_missing sid entry.tier
  load_read sid entry (some content) =
      if is_empty content then load_missing sid entry.tier else load_hit sid entry content

  load_found : String → Option CacheEntry → Exec (Manager S) (Option KvData)
  load_found sid none = do modify (note miss_not_found); pure none
  load_found sid (some entry) = do
    found ← gets (λ m. Storage.get (tier m entry.tier) sid)
    load_read sid entry found

  unfoldable pub load : String → Exec (Manager S) (Option KvData)
  unfolding record_hit load_hit load_missing load_read load_found
  load sid = do entry ← gets (λ m. Dict.get m.index sid); load_found sid entry

pub record SystemStats : Type 0 where
  pub index : IndexStats
  pub usage : TierName → TierUsage

unfoldable pub stats : {S : Type 0} → Manager S → SystemStats
unfolding Index.stats Storage.usage
stats m = record { index = Index.stats m.index; usage = λ t. Storage.usage (tier m t) }

-- ===== src/Manager/Ready.antt =====
-- core/tiered_manager.py: states in which the index has each session once and the files are in
-- order, under the cascade with a sound policy.
use kv_cache_tier_persistenc.Prelude.{
  ℕ, suc, ◌≤◌, ◌<◌, ap, sym, ◌∙◌, String, ◌≡◌, refl, Bool, true, false, Option, none, some, [], ◌∷◌,
  arith, eq_iff, if◌then◌else◌, length, inl, inr, Option-cases,
}
use kv_cache_tier_persistenc.Result.{ok, Result-cases}
use kv_cache_tier_persistenc.Exec.Hoare.{Outcome}
use kv_cache_tier_persistenc.Dict
use kv_cache_tier_persistenc.Dict.{Dict}
use kv_cache_tier_persistenc.Dict.Bytes.{Bytes}
use kv_cache_tier_persistenc.Tiers.Storage
use kv_cache_tier_persistenc.Tiers.Storage.{TierName, hot, warm, cold, StorageTier}
use kv_cache_tier_persistenc.Tiers.Storage.Laws.{
  IsHealthy, put-IsHealthy, delete-IsHealthy, put_of_room,
}
use kv_cache_tier_persistenc.Index.{CacheEntry, CacheIndex, tier_eq}
use kv_cache_tier_persistenc.Eviction.Policy.{EvictionPolicy, IsSound}
use kv_cache_tier_persistenc.Manager.{
  Manager, tier, set_tier, delete_in, relocate, forget, in_tier, victim, colder,
}
use kv_cache_tier_persistenc.Manager.Tiers.{
  tier-set_tier, index-set_tier, tier-forget, eq_of_tier_eq,
}
use kv_cache_tier_persistenc.Manager.Relocate.{
  relocated, index-relocated, tier-relocated, relocate-relocated,
}
use kv_cache_tier_persistenc.Manager.Stable.{IsStable}

pub record IsReady {S : Type 0} (m : Manager S) : Type 0 where
  pub healthy : (t : TierName) → IsHealthy (tier m t)
  pub unique : Dict.IsUnique m.index

-- The depth that an eviction from the tier needs.
abbrev pub levels_of : TierName → ℕ
levels_of hot = 3
levels_of warm = 2
levels_of cold = 1

abbrev only_tier : TierName → Option CacheEntry → Option CacheEntry
only_tier t none = none
only_tier t (some e) = if tier_eq e.tier t then some e else none

get-in_tier :
    (t : TierName) (index : CacheIndex) (v : String)
    → Dict.IsUnique index
    → Dict.get (in_tier t index) v ≡ only_tier t (Dict.get index v)
unfolding in_tier Dict.get
get-in_tier t [] v u = refl
get-in_tier t ((k, e) ∷ index) v u = ground (arith, eq_iff k v, get-in_tier t index v u.1)

pub no_level : (t : TierName) → levels_of t ≤ 0 → ⊥
no_level hot d = omega arith
no_level warm d = omega arith
no_level cold d = omega arith

pub levels_colder :
    (d : ℕ) (t u : TierName)
    → levels_of t ≤ suc d
    → colder t ≡ some u
    → (levels_of u ≤ d) × (levels_of u < levels_of t)
levels_colder d hot u h c = ground arith
levels_colder d warm u h c = ground arith
levels_colder d cold u h c = ground arith

module _ {S : Type 0} (p : EvictionPolicy S) (sound : IsSound p) where
  -- A victim is a session of the tier that is evicted from.
  pub tier-victim :
      (t : TierName) (m : Manager S) (v : String) (e : CacheEntry)
      → Dict.IsUnique m.index
      → victim p t m ≡ some v
      → Dict.get m.index v ≡ some e
      → e.tier ≡ t
  unfolding victim
  tier-victim t m v e u h g = ground (
    arith,
    sound.candidate m.policy m.now (in_tier t m.index) v,
    get-in_tier t m.index v u,
    eq_of_tier_eq e.tier t,
  )

  pub IsReady-relocate :
      (m : Manager S) (sid : String) (source target : TierName) (b : Bytes)
      → tier_eq source target ≡ false
      → Storage.is_full (tier m target) (length b) ≡ false
      → IsReady m
      → Outcome (λ _ m'. IsReady m') (λ _ _. ⊥) (relocate sid source target b m)
  IsReady-relocate m sid source target b apart room h =
      elim (Result-cases (Storage.put (tier m target) sid b)) [
        | inr (e, w) ↦ absurd (put_of_room (tier m target) sid b (h.healthy target) room e w)
        | inl (st, w) ↦ rw (relocate-relocated m sid source target st b w) (record {
          healthy = λ t. healthy st w t;
          unique = rw (index-relocated m sid source target st) (
              Dict.adjust-IsUnique m.index sid (λ (e : CacheEntry). record e { tier = target })
                h.unique);
        })
      ]
    where
      healthy :
          (st : StorageTier)
          → Storage.put (tier m target) sid b ≡ ok st
          → (t : TierName) → IsHealthy (tier (relocated m sid source target st) t)
      healthy st w t =
          rw (tier-relocated m sid source target st t apart)
            (cases (tier_eq source t) (tier_eq target t))
        where
          cases :
              (x y : Bool)
              → IsHealthy
                  (if x then (Storage.delete (tier m source) sid).0 else if y then st else tier m t)
          cases true y = delete-IsHealthy (tier m source) sid (h.healthy source)
          cases false true = put-IsHealthy (tier m target) sid b (h.healthy target) w
          cases false false = h.healthy t

  pub IsReady-discard :
      (m : Manager S) (sid : String) (t : TierName)
      → IsReady m
      → IsReady (forget p sid (delete_in t sid m).1)
  unfolding delete_in forget
  IsReady-discard m sid t h =
      let st = (Storage.delete (tier m t) sid).0 in
      record {
        healthy = λ u.
            rw (tier-forget (set_tier m t st) p sid u)
              (rw (tier-set_tier m t u st) (cases u (tier_eq t u)));
        unique = Dict.remove-IsUnique _ sid (rw (index-set_tier m t st) h.unique);
      }
    where
      cases :
          (u : TierName) (x : Bool)
          → IsHealthy (if x then (Storage.delete (tier m t) sid).0 else tier m u)
      cases u true = delete-IsHealthy (tier m t) sid (h.healthy t)
      cases u false = h.healthy u

  pub IsReady-IsStable :
      IsStable p IsReady (λ _ _. ⊥) (λ _ _. Unit {0}) (λ _. Unit {0}) (λ d t. levels_of t ≤ d)
  IsReady-IsStable = record {
    reads = λ m sid e b h g r. tt;
    moves = λ m sid source target b apart _ _ room h.
        IsReady-relocate m sid source target b apart room h;
    discards = IsReady-discard;
    deep_may = λ _ _ _. tt;
    deep_zero = λ m t d h. absurd (no_level t d);
    deep_suc = λ d t u m v e deep h q g c.
        (levels_colder d t u deep (ap colder (sym (tier-victim t m v e h.unique q g)) ∙ c)).0;
  }

  -- A victim is in the index, where the index is unique, and in the tier.
  pub victim-in_tier :
      (t : TierName) (m : Manager S) (v : String)
      → Dict.IsUnique m.index
      → victim p t m ≡ some v
      → (e : CacheEntry) × (Dict.get m.index v ≡ some e) × (e.tier ≡ t)
  victim-in_tier t m v u h = elim (Option-cases (Dict.get m.index v)) [
    | inr (e, g) ↦ (e, g, tier-victim t m v e u h g)
    | inl g ↦ absurd (
        unfold victim in
        ground
          (arith, sound.candidate m.policy m.now (in_tier t m.index) v, get-in_tier t m.index v u))
  ]

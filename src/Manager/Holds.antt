-- ===== src/Manager/Holds.antt =====
-- core/tiered_manager.py: the payloads of the sessions, under the moves and removals of the
-- cascade.
use kv_cache_tier_persistenc.Manager.Stable.{IsStable}
use kv_cache_tier_persistenc.Prelude.{
  String, ◌≡◌, false, some, arith, eq_iff, length, inl, inr, Option-cases,
}
use kv_cache_tier_persistenc.Result.{ok, Result-cases}
use kv_cache_tier_persistenc.Exec.Hoare.{Outcome}
use kv_cache_tier_persistenc.Dict
use kv_cache_tier_persistenc.Dict.Bytes.{Bytes}
use kv_cache_tier_persistenc.Tiers.Storage
use kv_cache_tier_persistenc.Tiers.Storage.{TierName, hot, warm, cold, StorageTier, files}
use kv_cache_tier_persistenc.Tiers.Storage.Laws.{files-put, files-delete_ne, files-get}
use kv_cache_tier_persistenc.Index.{CacheEntry, tier_eq}
use kv_cache_tier_persistenc.Eviction.Policy.{EvictionPolicy}
use kv_cache_tier_persistenc.Manager.{Manager, tier, set_tier, delete_in, relocate, forget}
use kv_cache_tier_persistenc.Manager.Tiers.{
  tier-forget, tier-set_tier, index-set_tier, stored, tier_eq_refl, eq_of_tier_eq,
}
use kv_cache_tier_persistenc.Manager.Relocate.{
  relocated, index-relocated, tier-relocated, relocate-relocated, relocate-raise,
}

pub record Holds {S : Type 0} (content : String → Bytes) (m : Manager S) : Type 0 where
  pub at :
      (sid : String) (e : CacheEntry)
      → Dict.get m.index sid ≡ some e
      → (stored m e.tier sid ≡ some (content sid)) × (e.size_bytes ≡ length (content sid))

module _ {S : Type 0} (content : String → Bytes) where
  Holds-relocated :
      (sid : String) (source target : TierName) (m : Manager S) {st : StorageTier}
      → tier_eq source target ≡ false
      → Storage.put (tier m target) sid (content sid) ≡ ok st
      → Holds content m
      → Holds content (relocated m sid source target st)
  Holds-relocated sid source target m {st} apart written h = record { at = λ j e p. holds j e p }
    where
      facts :
          (j : String) (e x : CacheEntry)
          → Dict.get m.index j ≡ some x
          → Dict.get (relocated m sid source target st).index j ≡ some e
          → (stored (relocated m sid source target st) e.tier j ≡ some (content j))
            × (e.size_bytes ≡ length (content j))
      facts j e x q p = ground (
        arith,
        index-relocated m sid source target st,
        Dict.get-adjust m.index sid j (λ (y : CacheEntry). record y { tier = target }),
        tier-relocated m sid source target st e.tier apart,
        eq_iff sid j,
        tier_eq_refl target,
        files-delete_ne (tier m source) sid j,
        files-put (tier m target) sid (content sid) j written,
        eq_of_tier_eq source e.tier,
        eq_of_tier_eq target e.tier,
        h.at j x q,
      )

      holds :
          (j : String) (e : CacheEntry)
          → Dict.get (relocated m sid source target st).index j ≡ some e
          → (stored (relocated m sid source target st) e.tier j ≡ some (content j))
            × (e.size_bytes ≡ length (content j))
      holds j e p = elim (Option-cases (Dict.get m.index j)) [
        | inr (x, q) ↦ facts j e x q p
        | inl q ↦ absurd (
            ground (
              arith,
              index-relocated m sid source target st,
              Dict.get-adjust m.index sid j (λ (y : CacheEntry). record y { tier = target }),
            ))
      ]

  -- An entry's other fields may change, through a reference to it.
  pub Holds-adjust :
      (m n : Manager S) (sid : String) (f : CacheEntry → CacheEntry)
      → n.index ≡ Dict.adjust m.index sid f
      → ((t : TierName) → tier n t ≡ tier m t)
      → ((e : CacheEntry) → ((f e).tier ≡ e.tier) × ((f e).size_bytes ≡ e.size_bytes))
      → Holds content m
      → Holds content n
  Holds-adjust m n sid f i t keep h = record { at = λ j e q. holds j e q }
    where
      holds :
          (j : String) (e : CacheEntry)
          → Dict.get n.index j ≡ some e
          → (stored n e.tier j ≡ some (content j)) × (e.size_bytes ≡ length (content j))
      holds j e q = elim (Option-cases (Dict.get m.index j)) [
        | inr (x, g) ↦ ground (arith, Dict.get-adjust m.index sid j f, t e.tier, keep x, h.at j x g)
        | inl g ↦ absurd (ground (arith, Dict.get-adjust m.index sid j f))
      ]

  moves :
      (m : Manager S) (sid : String) (source target : TierName) (b : Bytes)
      → tier_eq source target ≡ false
      → b ≡ content sid
      → Holds content m
      → Outcome
          (λ _ m'. Holds content m')
          (λ _ m'. Holds content m')
          (relocate sid source target b m)
  moves m sid source target b apart e h = elim (Result-cases (Storage.put (tier m target) sid b)) [
    | inl (st, w) ↦
        rw (relocate-relocated m sid source target st b w)
          (Holds-relocated sid source target m apart (rw e at w) h)
    | inr (x, w) ↦ rw (relocate-raise m sid source target b x w) h
  ]

  module _ (p : EvictionPolicy S) where
    discards :
        (m : Manager S) (sid : String) (t : TierName)
        → Holds content m
        → Holds content (forget p sid (delete_in t sid m).1)
    unfolding forget delete_in
    discards m sid t h = record {
      at = λ j e q. ground (
        arith,
        index-set_tier m t (Storage.delete (tier m t) sid).0,
        tier-forget (set_tier m t (Storage.delete (tier m t) sid).0) p sid e.tier,
        tier-set_tier m t e.tier (Storage.delete (tier m t) sid).0,
        Dict.get-remove m.index sid j,
        eq_iff sid j,
        eq_of_tier_eq t e.tier,
        files-delete_ne (tier m t) sid j,
        h.at j e,
      );
    }

    pub Holds-IsStable :
        IsStable p
          (Holds content)
          (λ _ m. Holds content m)
          (λ sid b. b ≡ content sid)
          (λ _. Unit {0})
          (λ _ _. Unit {0})
    Holds-IsStable = record {
      reads = λ m sid e b h g r. cc (files-get (tier m e.tier) sid r, (h.at sid e g).0);
      moves = λ m sid source target b apart e _ _ h. moves m sid source target b apart e h;
      discards = discards;
      deep_may = λ _ _ _. tt;
      deep_zero = λ m t _ h. h;
      deep_suc = λ d t u m v e _ _ _ _ _. tt;
    }

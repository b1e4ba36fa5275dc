-- ===== src/Manager/Tiers.antt =====
-- Reading a tier of the manager after a write to one.
use kv_cache_tier_persistenc.Prelude.{String, ◌≡◌, refl, true, Option, arith, if◌then◌else◌}
use kv_cache_tier_persistenc.Dict
use kv_cache_tier_persistenc.Dict.Bytes.{Bytes}
use kv_cache_tier_persistenc.Tiers.Storage.{TierName, hot, warm, cold, StorageTier, files}
use kv_cache_tier_persistenc.Index.{tier_eq}
use kv_cache_tier_persistenc.Manager.{Manager, tier, set_tier, move_entry, forget}
use kv_cache_tier_persistenc.Eviction.Policy.{EvictionPolicy}

pub tier_eq_refl : (t : TierName) → tier_eq t t ≡ true
tier_eq_refl hot = refl
tier_eq_refl _ = refl

pub eq_of_tier_eq : (t u : TierName) → tier_eq t u ≡ true → t ≡ u
eq_of_tier_eq hot u h = ground arith
eq_of_tier_eq warm u h = ground arith
eq_of_tier_eq cold u h = ground arith

-- Two states with the same tiers.
pub tier_congr :
    {S : Type 0} (m n : Manager S)
    → m.hot_tier ≡ n.hot_tier
    → m.warm_tier ≡ n.warm_tier
    → m.cold_tier ≡ n.cold_tier
    → (t : TierName) → tier m t ≡ tier n t
unfolding tier
tier_congr m n h w c hot = h
tier_congr m n h w c warm = w
tier_congr m n h w c cold = c

module _ {S : Type 0} (m : Manager S) where
  pub tier-set_tier :
      (t u : TierName) (st : StorageTier)
      → tier (set_tier m t st) u ≡ (if tier_eq t u then st else tier m u)
  unfolding tier set_tier
  tier-set_tier hot u st = ground arith
  tier-set_tier warm u st = ground arith
  tier-set_tier cold u st = ground arith

  pub index-set_tier : (t : TierName) (st : StorageTier) → (set_tier m t st).index ≡ m.index
  unfolding set_tier
  index-set_tier hot st = refl
  index-set_tier _ st = refl

  -- What the tier holds for a session.
  abbrev pub stored : TierName → String → Option Bytes
  stored t sid = Dict.get (files (tier m t)) sid

  pub tier-move_entry : (sid : String) (u t : TierName) → tier (move_entry sid u m) t ≡ tier m t
  unfolding move_entry tier
  tier-move_entry sid u hot = refl
  tier-move_entry sid u _ = refl

  pub tier-forget :
      (p : EvictionPolicy S) (sid : String) (t : TierName) → tier (forget p sid m) t ≡ tier m t
  unfolding forget tier
  tier-forget p sid hot = refl
  tier-forget p sid _ = refl

-- ===== src/Manager/Relocate.antt =====
-- The last three statements of `promote` and `demote`, as one step of the state.
use kv_cache_tier_persistenc.Prelude.{String, ◌≡◌, false, arith, if◌then◌else◌}
use kv_cache_tier_persistenc.Result.{Error, ok, raise}
use kv_cache_tier_persistenc.Exec.{◌>>=◌}
use kv_cache_tier_persistenc.Dict
use kv_cache_tier_persistenc.Dict.Bytes.{Bytes}
use kv_cache_tier_persistenc.Tiers.Storage
use kv_cache_tier_persistenc.Tiers.Storage.{TierName, StorageTier}
use kv_cache_tier_persistenc.Index.{CacheEntry, tier_eq}
use kv_cache_tier_persistenc.Manager.{
  Manager, tier, set_tier, put_in, delete_in, move_entry, relocate,
}
use kv_cache_tier_persistenc.Manager.Tiers.{
  tier-set_tier, index-set_tier, tier-move_entry, eq_of_tier_eq,
}

module _ {S : Type 0} (m : Manager S) (sid : String) (source target : TierName)
    (st : StorageTier) where
  written : Manager S
  written = set_tier m target st

  pub relocated : Manager S
  unfolding written
  relocated =
      move_entry sid target (set_tier written source (Storage.delete (tier written source) sid).0)

  pub relocate-relocated :
      (b : Bytes)
      → Storage.put (tier m target) sid b ≡ ok st
      → relocate sid source target b m ≡ (ok tt, relocated)
  unfolding relocate delete_in relocated ◌>>=◌ put_in
  relocate-relocated b e = ground arith

  pub index-relocated :
      relocated.index ≡ Dict.adjust m.index sid (λ (e : CacheEntry). record e { tier = target })
  unfolding relocated move_entry
  index-relocated = ground (
    arith,
    index-set_tier m target st,
    index-set_tier written source (Storage.delete (tier written source) sid).0,
  )

  pub tier-relocated :
      (t : TierName)
      → tier_eq source target ≡ false
      → tier relocated t ≡ (
          if tier_eq source t
          then (Storage.delete (tier m source) sid).0
          else if tier_eq target t
          then st
          else tier m t)
  unfolding relocated
  tier-relocated t apart = ground (
    arith,
    tier-move_entry (set_tier written source (Storage.delete (tier written source) sid).0) sid
        target t,
    tier-set_tier written source t (Storage.delete (tier written source) sid).0,
    tier-set_tier m target t st,
    tier-set_tier m target source st,
    eq_of_tier_eq target source,
    eq_of_tier_eq source t,
    eq_of_tier_eq target t,
  )

module _ {S : Type 0} (m : Manager S) (sid : String) (source target : TierName) where
  pub relocate-raise :
      (b : Bytes) (e : Error)
      → Storage.put (tier m target) sid b ≡ raise e
      → relocate sid source target b m ≡ (raise e, m)
  unfolding relocate delete_in ◌>>=◌ put_in
  relocate-raise b e h = ground arith

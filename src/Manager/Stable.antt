-- ===== src/Manager/Stable.antt =====
-- The rule for invariants of the eviction cascade. `I` is the invariant, `E` what a raise leaves;
-- `Fact` is what a payload read for a session tells, `May` the tiers that may be moved into, and
-- `Deep d t` says that depth `d` is enough to evict from tier `t`.
use kv_cache_tier_persistenc.Prelude.{ℕ, zero, suc, String, ◌≡◌, Bool, true, false, some, length}
use kv_cache_tier_persistenc.Result.{Error, out_of_depth}
use kv_cache_tier_persistenc.Exec.{Exec, pure, ◌>>◌}
use kv_cache_tier_persistenc.Exec.Hoare.{
  Triple, Outcome, Triple-pure, Triple-gets, Triple-if, Triple-bind,
}
use kv_cache_tier_persistenc.Dict
use kv_cache_tier_persistenc.Dict.Bytes.{Bytes}
use kv_cache_tier_persistenc.Tiers.Storage
use kv_cache_tier_persistenc.Tiers.Storage.{TierName, hot, warm, cold}
use kv_cache_tier_persistenc.Index.{CacheEntry, tier_eq}
use kv_cache_tier_persistenc.Eviction.Policy.{EvictionPolicy}
use kv_cache_tier_persistenc.Manager.{
  Manager, tier, delete_in, relocate, forget, ensure_space, victim, colder,
}

pub record IsStable {S : Type 0} (p : EvictionPolicy S) (I : Manager S → Type 0)
    (E : Error → Manager S → Type 0) (Fact : String → Bytes → Type 0) (May : TierName → Type 0)
    (Deep : ℕ → TierName → Type 0) : Type 0 where
  pub reads :
      (m : Manager S) (sid : String) (e : CacheEntry) (b : Bytes)
      → I m
      → Dict.get m.index sid ≡ some e
      → Storage.get (tier m e.tier) sid ≡ some b
      → Fact sid b
  pub moves :
      (m : Manager S) (sid : String) (source target : TierName) (b : Bytes)
      → tier_eq source target ≡ false
      → Fact sid b
      → May target
      → Storage.is_full (tier m target) (length b) ≡ false
      → I m
      → Outcome (λ _ m'. I m') E (relocate sid source target b m)
  pub discards :
      (m : Manager S) (sid : String) (t : TierName) → I m → I (forget p sid (delete_in t sid m).1)
  pub deep_may : (d : ℕ) (t : TierName) → Deep d t → May t
  pub deep_zero : (m : Manager S) (t : TierName) → Deep 0 t → I m → E out_of_depth m
  pub deep_suc :
      (d : ℕ) (t u : TierName) (m : Manager S) (v : String) (e : CacheEntry)
      → Deep (suc d) t
      → I m
      → victim p t m ≡ some v
      → Dict.get m.index v ≡ some e
      → colder e.tier ≡ some u
      → Deep d u

module _ {S : Type 0} {p : EvictionPolicy S} {I : Manager S → Type 0}
    {E : Error → Manager S → Type 0} {Fact : String → Bytes → Type 0} {May : TierName → Type 0}
    {Deep : ℕ → TierName → Type 0} (s : IsStable p I E Fact May Deep) where
  abbrev pub Keeps : {A : Type 0} → Exec (Manager S) A → Type 0
  Keeps x = Triple I x (λ _ m. I m) E

  pub ensure_space-Keeps :
      (evict : TierName → Exec (Manager S) Bool) (attempts : ℕ) (t : TierName) (size : ℕ)
      → Keeps (evict t)
      → Keeps (ensure_space evict attempts t size)
  unfolding ensure_space
  ensure_space-Keeps evict zero t size ev = Triple-pure tt (λ m h. h)
  ensure_space-Keeps evict (suc n) t size ev =
      Triple-bind _ _ (λ _ m. I m) (Triple-gets _ (λ m h. h))
        λ full.
          Triple-if full _ _
            (λ _.
              Triple-bind _ _ (λ _ m. I m) ev
                λ evicted.
                  Triple-if evicted _ _ (λ _. ensure_space-Keeps evict n t size ev)
                    (λ _. Triple-pure tt (λ m h. h)))
            (λ _. Triple-pure tt (λ m h. h))

  pub relocate-Keeps :
      (sid : String) (source target : TierName) (b : Bytes)
      → tier_eq source target ≡ false
      → Fact sid b
      → May target
      → Triple
          (λ m. I m × (Storage.is_full (tier m target) (length b) ≡ false))
          (do relocate sid source target b; pure true)
          (λ _ m. I m)
          E
  relocate-Keeps sid source target b apart fact may =
      Triple-bind _ _ (λ _ m. I m)
        (record { at = λ m h. s.moves m sid source target b apart fact may h.1 h.0 })
        (λ _. Triple-pure true (λ m h. h))

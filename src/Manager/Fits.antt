-- ===== src/Manager/Fits.antt =====
-- core/tiered_manager.py: the capacities of the tiers, under the writes and deletions of the
-- cascade.
use mathlib.Core.Path.{subst}
use kv_cache_tier_persistenc.Prelude.{
  String, ◌≡◌, if◌then◌else◌, inl, inr, sym, ap, ◌∙◌, Bool-cases,
}
use kv_cache_tier_persistenc.Result.{Result-cases}
use kv_cache_tier_persistenc.Exec.{modify}
use kv_cache_tier_persistenc.Exec.Hoare.{Triple, Triple-bind, Triple-state}
use kv_cache_tier_persistenc.Dict.Bytes.{Bytes}
use kv_cache_tier_persistenc.Tiers.Storage
use kv_cache_tier_persistenc.Tiers.Storage.{TierName, hot, warm, cold, StorageTier}
use kv_cache_tier_persistenc.Tiers.Storage.Laws as TierLaws
use kv_cache_tier_persistenc.Index.{tier_eq}
use kv_cache_tier_persistenc.Eviction.Policy.{EvictionPolicy}
use kv_cache_tier_persistenc.Manager.{
  Manager, tier, set_tier, put_in, delete_in, relocate, forget, move_entry,
}
use kv_cache_tier_persistenc.Manager.Tiers.{tier-set_tier, tier-forget, tier-move_entry}
use kv_cache_tier_persistenc.Manager.Stable.{IsStable}

pub record Fits {S : Type 0} (m : Manager S) : Type 0 where
  pub at : (t : TierName) → TierLaws.IsValid (tier m t)

module _ {S : Type 0} where
  -- One tier is replaced by a valid one.
  Fits-write :
      (m n : Manager S) (t : TierName) (st : StorageTier)
      → ((u : TierName) → tier n u ≡ (if tier_eq t u then st else tier m u))
      → TierLaws.IsValid st
      → Fits m
      → Fits n
  Fits-write m n t st e v h = record { at = λ u. at u }
    where
      at : (u : TierName) → TierLaws.IsValid (tier n u)
      at u = elim (Bool-cases (tier_eq t u)) [
        | inl q ↦ subst TierLaws.IsValid (sym (e u ∙ ap (λ b. if b then st else tier m u) q)) v
        | inr q ↦
            subst TierLaws.IsValid (sym (e u ∙ ap (λ b. if b then st else tier m u) q)) (h.at u)
      ]

  pub put_in-Fits :
      (t : TierName) (k : String) (b : Bytes) (m : Manager S) → Fits m → Fits (put_in t k b m).1
  unfolding put_in
  put_in-Fits t k b m h = elim (Result-cases (Storage.put (tier m t) k b)) [
    | inl (st, w) ↦
        rw (w, put_in)
          (Fits-write m (set_tier m t st) t st (λ u. tier-set_tier m t u st)
            (TierLaws.put-IsValid (tier m t) k b (h.at t) w) h)
    | inr (x, w) ↦ rw (w, put_in) h
  ]

  pub delete_in-Fits :
      (t : TierName) (k : String) (m : Manager S) → Fits m → Fits (delete_in t k m).1
  unfolding delete_in
  delete_in-Fits t k m h =
      let st = (Storage.delete (tier m t) k).0 in
      Fits-write m (set_tier m t st) t st (λ u. tier-set_tier m t u st)
        (TierLaws.delete-IsValid (tier m t) k (h.at t)) h

  -- A statement that leaves the tiers.
  pub Fits-same : (m n : Manager S) → ((t : TierName) → tier n t ≡ tier m t) → Fits m → Fits n
  Fits-same m n e h = record { at = λ t. subst TierLaws.IsValid (sym (e t)) (h.at t) }

  relocate-Triple :
      (sid : String) (source target : TierName) (b : Bytes)
      → Triple Fits (relocate sid source target b) (λ _. Fits {S = S}) (λ _. Fits)
  unfolding relocate
  relocate-Triple sid source target b =
      Triple-bind _ _ (λ _. Fits) (Triple-state _ (put_in-Fits target sid b))
        λ _.
          Triple-bind _ _ (λ _. Fits) (Triple-state _ (delete_in-Fits source sid))
            λ _. Triple-state _ λ m h.
              unfold modify in
              Fits-same m (move_entry sid target m) (tier-move_entry m sid target) h

  module _ (p : EvictionPolicy S) where
    discards :
        (m : Manager S) (sid : String) (t : TierName)
        → Fits m
        → Fits (forget p sid (delete_in t sid m).1)
    discards m sid t h =
        let n = (delete_in t sid m).1 in
        Fits-same n (forget p sid n) (tier-forget n p sid) (delete_in-Fits t sid m h)

    pub Fits-IsStable :
        IsStable p Fits (λ _ m. Fits m) (λ sid b. Unit {0}) (λ _. Unit {0}) (λ _ _. Unit {0})
    Fits-IsStable = record {
      reads = λ m sid e b h g r. tt;
      moves = λ m sid source target b apart e _ _ h. (relocate-Triple sid source target b).at m h;
      discards = discards;
      deep_may = λ _ _ _. tt;
      deep_zero = λ m t _ h. h;
      deep_suc = λ d t u m v e _ _ _ _ _. tt;
    }

-- ===== src/Manager/Count.antt =====
-- core/tiered_manager.py: the number of the sessions of a tier in the index, under a move and a
-- removal.
use mathlib.Core.Path.{subst}
use kv_cache_tier_persistenc.Prelude.{
  ℕ, ◌+◌, ◌≤◌, ◌<◌, String, ◌≡◌, refl, ◌⊎◌, Bool, true, false, Option, none, some, [], ◌∷◌, arith,
  eq_iff, if◌then◌else◌, length, inl, inr, sym, ap, ◌∙◌, Bool-cases,
}
use kv_cache_tier_persistenc.Result.{Result-cases}
use kv_cache_tier_persistenc.Exec.Hoare.{Outcome, Outcome-returns}
use kv_cache_tier_persistenc.Dict
use kv_cache_tier_persistenc.Dict.{Dict}
use kv_cache_tier_persistenc.Dict.Bytes.{Bytes}
use kv_cache_tier_persistenc.Tiers.Storage
use kv_cache_tier_persistenc.Tiers.Storage.{TierName, hot, warm, cold, StorageTier}
use kv_cache_tier_persistenc.Index.{CacheEntry, CacheIndex, tier_eq}
use kv_cache_tier_persistenc.Eviction.Policy.{EvictionPolicy, IsSound}
use kv_cache_tier_persistenc.Manager.{Manager, tier, delete_in, relocate, forget, in_tier, colder}
use kv_cache_tier_persistenc.Manager.Tiers.{index-set_tier, eq_of_tier_eq}
use kv_cache_tier_persistenc.Manager.Relocate.{index-relocated, relocate-relocated, relocate-raise}
use kv_cache_tier_persistenc.Manager.Stable.{IsStable}
use kv_cache_tier_persistenc.Manager.Ready.{
  IsReady, levels_of, tier-victim, levels_colder, IsReady-relocate, IsReady-discard, no_level,
}

-- The number of sessions of the index in a tier.
unfoldable pub count : TierName → CacheIndex → ℕ
count t index = length (in_tier t index)

pub count-le-length : (t : TierName) (index : CacheIndex) → count t index ≤ length index
unfolding count in_tier
count-le-length t [] = omega arith
count-le-length t ((k, e) ∷ index) = ground (arith, count-le-length t index)

abbrev pub at_tier : TierName → Option CacheEntry → Bool
at_tier t none = false
at_tier t (some e) = tier_eq e.tier t

-- A move into another tier takes the session out of the count, where it was in it.
count-adjust :
    (t target : TierName) (sid : String) (index : CacheIndex)
    → tier_eq target t ≡ false
    → count t (Dict.adjust index sid (λ e. record e { tier = target }))
        + (if at_tier t (Dict.get index sid) then 1 else 0)
      ≡ count t index
unfolding count in_tier Dict.adjust Dict.get
count-adjust t target sid [] h = refl
count-adjust t target sid ((k, e) ∷ index) h = ground (arith, count-adjust t target sid index h)

count-remove :
    (t : TierName) (sid : String) (index : CacheIndex)
    → count t (Dict.remove index sid) + (if at_tier t (Dict.get index sid) then 1 else 0)
      ≤ count t index
unfolding count in_tier Dict.remove Dict.get
count-remove t sid [] = omega arith
count-remove t sid ((k, e) ∷ index) = ground (arith, count-remove t sid index)

-- While victim `v` of tier `t` is on its way: it is still there, or the count has fallen below `n`.
pub record IsPending {S : Type 0} (t : TierName) (v : String) (n : ℕ) (m : Manager S) : Type 0 where
  pub ready : IsReady m
  pub bound :
      (count t m.index < n) ⊎ ((count t m.index ≤ n) × (at_tier t (Dict.get m.index v) ≡ true))

module _ {S : Type 0} (p : EvictionPolicy S) (sound : IsSound p) (t : TierName) (v : String)
    (n : ℕ) where
  bound-adjust :
      (index : CacheIndex) (sid : String) (target : TierName)
      → tier_eq target t ≡ false
      → (count t index < n) ⊎ ((count t index ≤ n) × (at_tier t (Dict.get index v) ≡ true))
      → let index' = Dict.adjust index sid (λ e. record e { tier = target }) in
        ((count t index' < n) ⊎ ((count t index' ≤ n) × (at_tier t (Dict.get index' v) ≡ true)))
        × (sid ≡ v → count t index' < n)
  bound-adjust index sid target apart h = ground (
    arith,
    count-adjust t target sid index apart,
    Dict.get-adjust index sid v (λ (e : CacheEntry). record e { tier = target }),
    eq_iff sid v,
  )

  bound-remove :
      (index : CacheIndex) (sid : String)
      → (count t index < n) ⊎ ((count t index ≤ n) × (at_tier t (Dict.get index v) ≡ true))
      → let index' = Dict.remove index sid in
        ((count t index' < n) ⊎ ((count t index' ≤ n) × (at_tier t (Dict.get index' v) ≡ true)))
        × (sid ≡ v → count t index' < n)
  bound-remove index sid h =
      ground (arith, count-remove t sid index, Dict.get-remove index sid v, eq_iff sid v)

  pub moved :
      (m : Manager S) (sid : String) (source target : TierName) (b : Bytes)
      → tier_eq source target ≡ false
      → tier_eq target t ≡ false
      → Storage.is_full (tier m target) (length b) ≡ false
      → IsPending t v n m
      → Outcome
          (λ _ m'. IsPending t v n m' × (sid ≡ v → count t m'.index < n))
          (λ _ _. ⊥)
          (relocate sid source target b m)
  moved m sid source target b apart other room h =
      elim (Result-cases (Storage.put (tier m target) sid b)) [
        | inr (e, w) ↦ absurd (rw (relocate-raise m sid source target b e w) at kept)
        | inl (st, w) ↦
            let done = bound-adjust m.index sid target other h.bound in
            let i = index-relocated m sid source target st in
            rw (relocate-relocated m sid source target st b w) (
              record {
                ready = rw (relocate-relocated m sid source target st b w) at kept;
                bound = rw i done.0;
              },
              rw i done.1,
            )
      ]
    where
      kept : Outcome (λ _ m'. IsReady m') (λ _ _. ⊥) (relocate sid source target b m)
      kept = IsReady-relocate p sound m sid source target b apart room h.ready

  pub dropped :
      (m : Manager S) (sid : String) (u : TierName)
      → IsPending t v n m
      → let m' = forget p sid (delete_in u sid m).1 in
        IsPending t v n m' × (sid ≡ v → count t m'.index < n)
  unfolding forget delete_in
  dropped m sid u h =
      let done = bound-remove m.index sid h.bound in
      let i = index-set_tier m u (Storage.delete (tier m u) sid).0 in
      (record { ready = IsReady-discard p sound m sid u h.ready; bound = rw i done.0 }, rw i done.1)

  -- The tiers below `t`, to a given depth.
  abbrev pub Below : ℕ → TierName → Type 0
  Below d u = (levels_of u ≤ d) × (levels_of u < levels_of t)

  pub below-apart : (u : TierName) → levels_of u < levels_of t → tier_eq u t ≡ false
  below-apart u h = elim (Bool-cases (tier_eq u t)) [
    | inr q ↦ q
    | inl q ↦ absurd (
        subst (λ x. levels_of x < levels_of t → ⊥) (sym (eq_of_tier_eq u t q)) (λ k. omega arith) h)
  ]

  pub IsPending-IsStable :
      IsStable p (IsPending t v n) (λ _ _. ⊥) (λ _ _. Unit {0}) (λ u. tier_eq u t ≡ false) Below
  IsPending-IsStable = record {
    reads = λ m sid e b h g r. tt;
    moves = λ m sid source target b apart _ other room h.
        Outcome-returns (λ _ _. ⊥) (λ _ m'. IsPending t v n m') (relocate sid source target b m)
          (λ _ m' k. k.0) (moved m sid source target b apart other room h);
    discards = λ m sid u h. (dropped m sid u h).0;
    deep_may = λ d u h. below-apart u h.1;
    deep_zero = λ m u h k. absurd (no_level u h.0);
    deep_suc = λ d u w m x e deep h q g c.
        let same = tier-victim p sound u m x e h.ready.unique q g in
        let (d', lower) = levels_colder d u w deep.0 (ap colder (sym same) ∙ c) in
        (d', omega arith);
  }

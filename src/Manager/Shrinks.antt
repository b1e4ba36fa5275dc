-- ===== src/Manager/Shrinks.antt =====
-- core/tiered_manager.py: the sessions of a tier before and after an eviction from it.
use kv_cache_tier_persistenc.Prelude.{
  ℕ, zero, suc, ◌≤◌, ◌<◌, String, ◌≡◌, refl, Bool, true, false, Option, none, some, arith, str_eq,
  inr, sym, ap, ◌∙◌,
}
use kv_cache_tier_persistenc.Exec.{◌>>=◌, ◌>>◌, pure}
use kv_cache_tier_persistenc.Exec.Hoare.{
  Triple, Triple-bind, Triple-gets, Triple-pure, Triple-if, Triple-returns, Outcome-returns,
}
use kv_cache_tier_persistenc.Tiers.Storage.{TierName, cold}
use kv_cache_tier_persistenc.Index.{tier_eq}
use kv_cache_tier_persistenc.Eviction.Policy.{EvictionPolicy, IsSound}
use kv_cache_tier_persistenc.Manager.{
  Manager, delete_in, victim, colder, evict_at, evict_victim, demote_with, delete, delete_found,
  relocate,
}
use kv_cache_tier_persistenc.Manager.Tiers.{tier_eq_refl}
use kv_cache_tier_persistenc.Manager.Demotion.{evict_at-Keeps, demote_with-Done}
use kv_cache_tier_persistenc.Manager.Ready.{
  IsReady, levels_of, tier-victim, levels_colder, victim-in_tier, no_level,
}
use kv_cache_tier_persistenc.Manager.Count.{
  count, IsPending, moved, dropped, IsPending-IsStable, below-apart,
}

module _ {S : Type 0} (p : EvictionPolicy S) (sound : IsSound p) (t : TierName) where
  -- At most `n` sessions are in the tier.
  pub record Holding (n : ℕ) (m : Manager S) : Type 0 where
    pub ready : IsReady m
    pub most : count t m.index ≤ n

  module _ (n : ℕ) where
    abbrev pub Shrinks : Bool → Manager S → Type 0
    Shrinks b m = Holding n m × (b ≡ true → count t m.index < n)

    pending : (v : String) (m : Manager S) → Holding n m → victim p t m ≡ some v → IsPending t v n m
    pending v m h q =
        let (e, g, same) = victim-in_tier p sound t m v h.ready.unique q in
        record { ready = h.ready; bound = inr (h.most, rw (g, same) (tier_eq_refl t)) }

    holding : (v : String) (m : Manager S) → IsPending t v n m → Holding n m
    holding v m h = record { ready = h.ready; most = ground arith }

    delete-Shrinks :
        (v : String)
        → Triple
            (λ m. Holding n m × (some v ≡ victim p t m))
            (do delete p v; pure true)
            Shrinks
            (λ _ _. ⊥)
    unfolding delete delete_in ◌>>=◌
    delete-Shrinks v = record {
      at = λ m h.
          let (e, g, same) = victim-in_tier p sound t m v h.0.ready.unique (sym h.1) in
          let done = dropped p sound t v n m v e.tier (pending v m h.0 (sym h.1)) in
          rw (g, delete_found, delete_in) (holding v _ done.0, λ _. done.1 refl);
    }

    victim-Shrinks :
        (d : ℕ) (o : Option String)
        → levels_of t ≤ suc d
        → Triple
            (λ m. Holding n m × (o ≡ victim p t m))
            (evict_victim p (demote_with p (evict_at p d)) t o)
            Shrinks
            (λ _ _. ⊥)
    unfolding evict_victim
    victim-Shrinks d none deep = Triple-pure false (λ m h. (h.0, λ q. cc))
    victim-Shrinks d (some v) deep =
        Triple-if (str_eq v "") _ _ (λ _. Triple-pure false (λ m h. (h.0, λ q. cc)))
          λ _.
            Triple-if (tier_eq t cold) _ _ (λ _. delete-Shrinks v)
              λ _. record { at = λ m h. demoted.at m (pending v m h.0 (sym h.1), sym h.1) }
      where
        demoted :
            Triple
              (λ m. IsPending t v n m × (victim p t m ≡ some v))
              (demote_with p (evict_at p d) v)
              Shrinks
              (λ _ _. ⊥)
        demoted =
            Triple-returns Shrinks (λ b m h. (holding v m h.0, h.1))
              (demote_with-Done (IsPending-IsStable p sound t v n) (evict_at p d) v
                (λ m. victim p t m ≡ some v) (λ m. count t m.index < n)
                (λ m source target b apart _ other room h.
                  Outcome-returns (λ _ _. ⊥) (λ _ m'. IsPending t v n m' × (count t m'.index < n))
                    (relocate v source target b m) (λ _ m' k. (k.0, k.1 refl))
                    (moved p sound t v n m v source target b apart other room h))
                (λ m u h. (dropped p sound t v n m v u h).1 refl)
                (λ m e u h r g c.
                  let same = tier-victim p sound t m v e h.ready.unique r g in
                  let (deeper, lower) = levels_colder d t u deep (ap colder (sym same) ∙ c) in
                  (
                    evict_at-Keeps (IsPending-IsStable p sound t v n) d u (deeper, lower),
                    below-apart p sound t v n u lower,
                  )))

    -- At a depth that is enough for the tier, an eviction does not raise, and one that answers
    -- true leaves fewer sessions in the tier.
    pub evict_at-Shrinks :
        (d : ℕ) → levels_of t ≤ d → Triple (Holding n) (evict_at p d t) Shrinks (λ _ _. ⊥)
    unfolding evict_at
    evict_at-Shrinks zero deep = absurd (no_level t deep)
    evict_at-Shrinks (suc d) deep =
        Triple-bind _ _ (λ o m. Holding n m × (o ≡ victim p t m)) (Triple-gets _ (λ m h. (h, refl)))
          (λ o. victim-Shrinks d o deep)

-- ===== src/Manager/Requests/Total.antt =====
-- core/tiered_manager.py: how `promote`, `demote`, eviction and maintenance end, and the loop of
-- `promote`.
use native.Mathlib.Nat.{le_refl}
use kv_cache_tier_persistenc.Prelude.{
  ℕ, zero, suc, ◌≤◌, ◌<◌, String, ◌≡◌, refl, Bool, true, false, arith, length, sym, ◌∙◌,
}
use kv_cache_tier_persistenc.Result.{Result, ok, raise}
use kv_cache_tier_persistenc.Exec.Hoare.{
  Triple, Outcome, Triple-bind, Triple-gets, Triple-pure, Triple-if,
}
use kv_cache_tier_persistenc.Tiers.Storage
use kv_cache_tier_persistenc.Tiers.Storage.{TierName, hot, warm, cold}
use kv_cache_tier_persistenc.Eviction.Policy.{EvictionPolicy, IsSound}
use kv_cache_tier_persistenc.Manager.{Manager, tier}
use kv_cache_tier_persistenc.Manager.Ready.{IsReady, IsReady-IsStable, levels_of}
use kv_cache_tier_persistenc.Manager.Count.{count, count-le-length}
use kv_cache_tier_persistenc.Manager.Shrinks.{Holding, Shrinks, evict_at-Shrinks}
use kv_cache_tier_persistenc.Manager.Requests.{
  levels, make_room, evict_from_tier, demote, promote, run_maintenance,
}
use kv_cache_tier_persistenc.Manager.Requests.Stable.{
  HasRoom, promote-Keeps, demote-Keeps, run_maintenance-Keeps,
}

-- A normal return, with a state that is ready for the next call.
abbrev pub Returns : {S A : Type 0} → Result A × Manager S → Type 0
Returns {S} {A} r = (a : A) × (m : Manager S) × (r ≡ (ok a, m)) × IsReady m

Returns-of_Outcome :
    {S A : Type 0} (r : Result A × Manager S) → Outcome (λ _ m. IsReady m) (λ _ _. ⊥) r → Returns r
Returns-of_Outcome (ok a, m) h = (a, m, refl, h)
Returns-of_Outcome (raise e, m) h = absurd h

pub levels_enough : (t : TierName) → levels_of t ≤ levels
levels_enough hot = omega arith
levels_enough warm = omega arith
levels_enough cold = omega arith

module _ {S : Type 0} (p : EvictionPolicy S) (sound : IsSound p) where
  abbrev Room : (t : TierName) → ℕ → Bool → Manager S → Type 0
  Room t size b m = IsReady m × (b ≡ true → Storage.is_full (tier m t) size ≡ false)

  -- The rounds after an eviction.
  next_rounds :
      (t : TierName) (size limit : ℕ)
      → ((n : ℕ)
          → n < limit
          → Triple
              (Holding p sound t n)
              (make_room (evict_from_tier p) limit t size)
              (Room t size)
              (λ _ _. ⊥))
      → (n : ℕ) (b : Bool) → b ≡ true
      → n < suc limit
      → Triple
          (Shrinks p sound t n b)
          (make_room (evict_from_tier p) limit t size)
          (Room t size)
          (λ _ _. ⊥)
  next_rounds t size limit ih zero b e h = record { at = λ m k. absurd (no_fewer m (k.1 e)) }
    where
      no_fewer : (m : Manager S) → count t m.index < 0 → ⊥
      no_fewer m k = omega arith
  next_rounds t size limit ih (suc n) b e h = record {
    at = λ m k. (ih n (omega arith)).at m (record { ready = k.0.ready; most = fewer m (k.1 e) });
  }
    where
      fewer : (m : Manager S) → count t m.index < suc n → count t m.index ≤ n
      fewer m k = omega arith

  make_room-Returns :
      (t : TierName) (size limit n : ℕ)
      → n < limit
      → Triple
          (Holding p sound t n)
          (make_room (evict_from_tier p) limit t size)
          (Room t size)
          (λ _ _. ⊥)
  unfolding make_room
  make_room-Returns t size zero n h = elim h [ ]
  make_room-Returns t size (suc limit) n h =
      let ih = make_room-Returns t size limit in
      Triple-bind _ _ (λ full m. Holding p sound t n m × (full ≡ Storage.is_full (tier m t) size))
        (Triple-gets _ (λ m k. (k, refl)))
        λ full.
          Triple-if full _ _
            (λ _.
              Triple-bind _ _ (Shrinks p sound t n)
                (record {
                  at = λ m k. (evict_at-Shrinks p sound t n levels (levels_enough t)).at m k.0;
                })
                λ evicted.
                  Triple-if evicted _ _ (λ e. next_rounds t size limit ih n evicted e h)
                    (λ _. Triple-pure false (λ m k. (k.0.ready, λ q. cc))))
            (λ e. Triple-pure true (λ m k. (k.0.ready, λ _. sym k.1 ∙ e)))

  IsReady-HasRoom : (t : TierName) → HasRoom (IsReady-IsStable p sound) t
  IsReady-HasRoom t limit size = record {
    at = λ m h.
        (make_room-Returns t size limit (count t m.index)
            (rw h.1 (enough m (count-le-length t m.index)))).at
          m (record { ready = h.0; most = le_refl _ });
  }
    where
      enough :
          (m : Manager S)
          → count t m.index ≤ length m.index
          → count t m.index < suc (length m.index)
      enough m k = omega arith

  -- With a sound policy, from a ready state, `promote` returns and leaves a ready state: the
  -- evictions it makes do not raise, and its loop ends.
  pub promote_total :
      (sid : String) (target : TierName) (m : Manager S)
      → IsReady m
      → Returns (promote p sid target m)
  promote_total sid target m h =
      Returns-of_Outcome _
        ((promote-Keeps (IsReady-IsStable p sound) sid target tt (IsReady-HasRoom target)).at m h)

  -- With a sound policy, from a ready state, `demote` returns and leaves a ready state: the
  -- cascade that makes room in the colder tiers ends and does not raise.
  pub demote_total : (sid : String) (m : Manager S) → IsReady m → Returns (demote p sid m)
  demote_total sid m h =
      Returns-of_Outcome _ ((demote-Keeps (IsReady-IsStable p sound) levels_enough sid).at m h)

  -- With a sound policy, from a ready state, the maintenance run returns and leaves a ready
  -- state.
  pub run_maintenance_total : (m : Manager S) → IsReady m → Returns (run_maintenance p m)
  run_maintenance_total m h =
      Returns-of_Outcome _ ((run_maintenance-Keeps (IsReady-IsStable p sound) levels_enough).at m h)

  -- With a sound policy, from a ready state, an eviction returns and leaves a ready state; where
  -- it answers true the tier has fewer sessions in the index than before.
  pub evict_from_tier_total :
      (t : TierName) (m : Manager S)
      → IsReady m
      → (b : Bool) × (m' : Manager S) × (evict_from_tier p t m ≡ (ok b, m'))
        × IsReady m'
        × (b ≡ true → count t m'.index < count t m.index)
  evict_from_tier_total t m h = read _ (
      (evict_at-Shrinks p sound t (count t m.index) levels (levels_enough t)).at m
        (record { ready = h; most = le_refl _ }))
    where
      read :
          (r : Result Bool × Manager S)
          → Outcome (Shrinks p sound t (count t m.index)) (λ _ _. ⊥) r
          → (b : Bool) × (m' : Manager S) × (r ≡ (ok b, m'))
            × IsReady m'
            × (b ≡ true → count t m'.index < count t m.index)
      read (ok b, m') k = (b, m', refl, k.0.ready, k.1)
      read (raise e, m') k = absurd k

-- ===== src/Manager/Demotion.antt =====
-- The rule for invariants, for `demote`, `delete` and `evict_from_tier`. `G` is what holds besides
-- the invariant where a demotion of `sid` answers that it moved or dropped the session.
use kv_cache_tier_persistenc.Prelude.{
  ℕ, zero, suc, String, ◌≡◌, refl, Bool, true, false, Option, none, some, arith, str_eq, length,
  sym, ◌∙◌,
}
use kv_cache_tier_persistenc.Result.{Error, out_of_depth}
use kv_cache_tier_persistenc.Exec.{Exec, pure, modify, ◌>>=◌, ◌>>◌}
use kv_cache_tier_persistenc.Exec.Hoare.{
  Triple, Outcome, Triple-pure, Triple-throw, Triple-gets, Triple-if, Triple-bind, Triple-returns,
  Outcome-returns,
}
use kv_cache_tier_persistenc.Dict
use kv_cache_tier_persistenc.Dict.Bytes.{Bytes}
use kv_cache_tier_persistenc.Tiers.Storage
use kv_cache_tier_persistenc.Tiers.Storage.{TierName, hot, warm, cold}
use kv_cache_tier_persistenc.Index.{CacheEntry, tier_eq}
use kv_cache_tier_persistenc.Eviction.Policy.{EvictionPolicy}
use kv_cache_tier_persistenc.Manager.{
  Manager, tier, delete_in, relocate, forget, demote_data, demote_read, demote_from, demote_found,
  demote_with, delete_found, delete, evict_victim, evict_at, victim, colder, is_empty, max_attempts,
}
use kv_cache_tier_persistenc.Manager.Stable.{IsStable, Keeps, ensure_space-Keeps}

colder-apart : (t u : TierName) → colder t ≡ some u → tier_eq t u ≡ false
colder-apart hot u h = ground arith
colder-apart warm u h = ground arith
colder-apart cold u h = ground arith

module _ {S : Type 0} {p : EvictionPolicy S} {I : Manager S → Type 0}
    {E : Error → Manager S → Type 0} {Fact : String → Bytes → Type 0} {May : TierName → Type 0}
    {Deep : ℕ → TierName → Type 0} (s : IsStable p I E Fact May Deep) where
  module _ (evict : TierName → Exec (Manager S) Bool) (sid : String) (R G : Manager S → Type 0)
      (moved : (m : Manager S) (source target : TierName) (b : Bytes)
        → tier_eq source target ≡ false
        → Fact sid b
        → May target
        → Storage.is_full (tier m target) (length b) ≡ false
        → I m
        → Outcome (λ _ m'. I m' × G m') E (relocate sid source target b m))
      (dropped : (m : Manager S) (t : TierName) → I m → G (forget p sid (delete_in t sid m).1))
      (ready : (m : Manager S) (e : CacheEntry) (u : TierName)
        → I m
        → R m
        → Dict.get m.index sid ≡ some e
        → colder e.tier ≡ some u
        → Keeps s (evict u) × May u) where
    abbrev Done : Bool → Manager S → Type 0
    Done b m = I m × (b ≡ true → G m)

    discard-Done :
        (t : TierName) → Triple I (do delete_in t sid; modify (forget p sid); pure true) Done E
    unfolding ◌>>=◌ delete_in
    discard-Done t = record {
      at = λ m h. unfold delete_in in (s.discards m sid t h, λ _. dropped m t h);
    }

    relocate-Done :
        (source target : TierName) (b : Bytes)
        → tier_eq source target ≡ false
        → Fact sid b
        → May target
        → Triple
            (λ m. I m × (Storage.is_full (tier m target) (length b) ≡ false))
            (do relocate sid source target b; pure true)
            Done
            E
    relocate-Done source target b apart fact may =
        Triple-bind _ _ (λ _ m. I m × G m)
          (record { at = λ m h. moved m source target b apart fact may h.1 h.0 })
          (λ _. Triple-pure true (λ m h. (h.0, λ _. h.1)))

    demote_data-Done :
        (source target : TierName) (b : Bytes)
        → tier_eq source target ≡ false
        → Fact sid b
        → May target
        → Keeps s (evict target)
        → Triple I (demote_data p evict sid source target b) Done E
    unfolding demote_data
    demote_data-Done source target b apart fact may ev =
        Triple-bind _ _ (λ _ m. I m) (ensure_space-Keeps s evict max_attempts target (length b) ev)
          λ _.
            Triple-bind _ _ (λ full m. I m × (full ≡ Storage.is_full (tier m target) (length b)))
              (Triple-gets _ (λ m h. (h, refl)))
              λ full.
                Triple-if full _ _
                  (λ _.
                    Triple-if (tier_eq target cold) _ _
                      (λ _. record { at = λ m h. (discard-Done source).at m h.0 })
                      (λ _. Triple-pure false (λ m h. (h.0, λ q. cc))))
                  (λ e. record {
                    at = λ m h.
                        (relocate-Done source target b apart fact may).at m (h.0, sym h.1 ∙ e);
                  })

    demote_read-Done :
        (e : CacheEntry) (u : TierName) (found : Option Bytes)
        → colder e.tier ≡ some u
        → Triple
            (λ m.
              I m
              × R m
              × (Dict.get m.index sid ≡ some e)
              × (found ≡ Storage.get (tier m e.tier) sid))
            (demote_read p evict sid e.tier u found)
            Done
            E
    unfolding demote_read
    demote_read-Done e u none c = Triple-pure false (λ m h. (h.0, λ q. cc))
    demote_read-Done e u (some b) c =
        Triple-if (is_empty b) _ _ (λ _. Triple-pure false (λ m h. (h.0, λ q. cc)))
          λ _. record {
            at = λ m h.
                (demote_data-Done e.tier u b (colder-apart e.tier u c)
                    (s.reads m sid e b h.0 h.2 (sym h.3)) (ready m e u h.0 h.1 h.2 c).1
                    (ready m e u h.0 h.1 h.2 c).0).at
                  m h.0;
          }

    demote_from-Done :
        (e : CacheEntry) (c : Option TierName)
        → colder e.tier ≡ c
        → Triple
            (λ m. I m × R m × (Dict.get m.index sid ≡ some e))
            (demote_from p evict sid e.tier c)
            Done
            E
    unfolding demote_from
    demote_from-Done e none c = Triple-pure false (λ m h. (h.0, λ q. cc))
    demote_from-Done e (some u) c =
        Triple-bind _ _
          (λ found m.
            I m × R m × (Dict.get m.index sid ≡ some e) × (found ≡ Storage.get (tier m e.tier) sid))
          (Triple-gets _ (λ m h. (h.0, h.1, h.2, refl))) (λ found. demote_read-Done e u found c)

    demote_found-Done :
        (o : Option CacheEntry)
        → Triple (λ m. I m × R m × (Dict.get m.index sid ≡ o)) (demote_found p evict sid o) Done E
    unfolding demote_found
    demote_found-Done none = Triple-pure false (λ m h. (h.0, λ q. cc))
    demote_found-Done (some e) = demote_from-Done e (colder e.tier) refl

    pub demote_with-Done : Triple (λ m. I m × R m) (demote_with p evict sid) Done E
    unfolding demote_with
    demote_with-Done =
        Triple-bind _ _ (λ o m. I m × R m × (Dict.get m.index sid ≡ o))
          (Triple-gets _ (λ m h. (h.0, h.1, refl))) demote_found-Done

  module _ (evict : TierName → Exec (Manager S) Bool) (sid : String) (R : Manager S → Type 0)
      (ready : (m : Manager S) (e : CacheEntry) (u : TierName)
        → I m
        → R m
        → Dict.get m.index sid ≡ some e
        → colder e.tier ≡ some u
        → Keeps s (evict u) × May u) where
    pub demote_with-Keeps : Triple (λ m. I m × R m) (demote_with p evict sid) (λ _ m. I m) E
    demote_with-Keeps =
        Triple-returns (λ _ m. I m) (λ _ m h. h.0)
          (demote_with-Done evict sid R (λ _. Unit {0})
            (λ m source target b apart fact may room h.
              Outcome-returns E (λ _ m'. I m' × Unit {0}) (relocate sid source target b m)
                (λ _ m' k. (k, tt)) (s.moves m sid source target b apart fact may room h))
            (λ m t h. tt) ready)

  pub delete-Keeps : (sid : String) → Keeps s (delete p sid)
  unfolding delete
  delete-Keeps sid = Triple-bind _ _ (λ _ m. I m) (Triple-gets _ (λ m h. h)) delete_found-Keeps
    where
      delete_found-Keeps : (o : Option CacheEntry) → Keeps s (delete_found p sid o)
      delete_found-Keeps none = Triple-pure false (λ m h. h)
      delete_found-Keeps (some e) = record {
        at = λ m h. unfold delete_in ◌>>=◌ in s.discards m sid e.tier h;
      }

  evict_victim-Keeps :
      (d : ℕ) (t : TierName) (o : Option String)
      → Deep (suc d) t
      → ((u : TierName) → Deep d u → Keeps s (evict_at p d u))
      → Triple
          (λ m. I m × (o ≡ victim p t m))
          (evict_victim p (demote_with p (evict_at p d)) t o)
          (λ _ m. I m)
          E
  unfolding evict_victim
  evict_victim-Keeps d t none deep ih = Triple-pure false (λ m h. h.0)
  evict_victim-Keeps d t (some v) deep ih =
      Triple-if (str_eq v "") _ _ (λ _. Triple-pure false (λ m h. h.0))
        λ _.
          Triple-if (tier_eq t cold) _ _
            (λ _.
              Triple-bind _ _ (λ _ m. I m) (record { at = λ m h. (delete-Keeps v).at m h.0 })
                (λ _. Triple-pure true (λ m h. h)))
            (λ _.
              demote_with-Keeps (evict_at p d) v (λ m. some v ≡ victim p t m)
                (λ m e u h r g c.
                  let deeper = s.deep_suc d t u m v e deep h (sym r) g c in
                  (ih u deeper, s.deep_may d u deeper)))

  pub evict_at-Keeps : (d : ℕ) (t : TierName) → Deep d t → Keeps s (evict_at p d t)
  unfolding evict_at
  evict_at-Keeps zero t deep = Triple-throw out_of_depth (λ m h. s.deep_zero m t deep h)
  evict_at-Keeps (suc d) t deep =
      Triple-bind _ _ (λ o m. I m × (o ≡ victim p t m)) (Triple-gets _ (λ m h. (h, refl)))
        (λ o. evict_victim-Keeps d t o deep (evict_at-Keeps d))

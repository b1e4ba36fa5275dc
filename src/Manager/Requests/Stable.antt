-- ===== src/Manager/Requests/Stable.antt =====
-- The rule for invariants, for `promote`, `demote`, `run_maintenance` and `load`.
use kv_cache_tier_persistenc.Prelude.{
  ℕ, zero, suc, String, ◌≡◌, refl, Bool, true, false, Option, none, some, List, [], ◌∷◌, length,
  sym, ◌∙◌,
}
use kv_cache_tier_persistenc.Result.{Error, out_of_depth, Result, ok, raise}
use kv_cache_tier_persistenc.Exec.{Exec, lift, gets, modify}
use kv_cache_tier_persistenc.Exec.Hoare.{
  Triple, Triple-pure, Triple-throw, Triple-gets, Triple-if, Triple-bind,
}
use kv_cache_tier_persistenc.Dict
use kv_cache_tier_persistenc.Dict.Bytes.{Bytes}
use kv_cache_tier_persistenc.Tiers.Storage
use kv_cache_tier_persistenc.Tiers.Storage.{TierName, hot, warm, cold}
use kv_cache_tier_persistenc.Index.{CacheEntry, tier_eq}
use kv_cache_tier_persistenc.Eviction.Policy.{EvictionPolicy}
use kv_cache_tier_persistenc.Manager.{
  Manager, tier, is_empty, drop_entry, note, Metric, miss_not_found, miss_missing_data,
}
use kv_cache_tier_persistenc.Manager.Stable.{IsStable, relocate-Keeps}
use kv_cache_tier_persistenc.Manager.Demotion.{demote_with-Keeps, evict_at-Keeps}
use kv_cache_tier_persistenc.Manager.Requests.{
  Settings, levels, make_room, rounds, evict_from_tier, demote, promote_room, promote_read,
  promote_found, promote, demote_all, run_maintenance, record_hit, load_hit, load_missing,
  load_read, load_found, load,
}

module _ {S : Type 0} {p : EvictionPolicy S} {I : Manager S → Type 0}
    {E : Error → Manager S → Type 0} {Fact : String → Bytes → Type 0} {May : TierName → Type 0}
    {Deep : ℕ → TierName → Type 0} (s : IsStable p I E Fact May Deep) where
  abbrev Keeps : {A : Type 0} → Exec (Manager S) A → Type 0
  Keeps x = Triple I x (λ _ m. I m) E

  -- What `promote` needs of its loop: room where it answers that there is room.
  abbrev pub HasRoom : TierName → Type 0
  HasRoom target =
      (limit size : ℕ)
      → Triple (λ m. I m × (limit ≡ rounds m)) (make_room (evict_from_tier p) limit target size)
          (λ b m. I m × (b ≡ true → Storage.is_full (tier m target) size ≡ false)) E

  make_room-Keeps :
      (evict : TierName → Exec (Manager S) Bool) (n : ℕ) (t : TierName) (size : ℕ)
      → ((m : Manager S) → I m → E out_of_depth m)
      → Keeps (evict t)
      → Triple I
          (make_room evict n t size)
          (λ b m. I m × (b ≡ true → Storage.is_full (tier m t) size ≡ false))
          E
  unfolding make_room
  make_room-Keeps evict zero t size spent ev = Triple-throw out_of_depth spent
  make_room-Keeps evict (suc n) t size spent ev =
      Triple-bind _ _ (λ full m. I m × (full ≡ Storage.is_full (tier m t) size))
        (Triple-gets _ (λ m h. (h, refl)))
        λ full.
          Triple-if full _ _
            (λ _.
              Triple-bind _ _ (λ _ m. I m) (record { at = λ m h. ev.at m h.0 })
                λ evicted.
                  Triple-if evicted _ _ (λ _. make_room-Keeps evict n t size spent ev)
                    (λ _. Triple-pure false (λ m h. (h, λ q. cc))))
            (λ e. Triple-pure true (λ m h. (h.0, λ _. sym h.1 ∙ e)))

  pub HasRoom-of_spent :
      (t : TierName) → Deep levels t → ((m : Manager S) → I m → E out_of_depth m) → HasRoom t
  HasRoom-of_spent t deep spent limit size = record {
    at = λ m h.
        (make_room-Keeps (evict_from_tier p) limit t size spent (evict_at-Keeps s levels t deep)).at
          m h.0;
  }

  module _ (sid : String) (target : TierName) (may : May target) (room : HasRoom target) where
    promote_room-Keeps :
        (source : TierName) (b : Bytes) (enough : Bool)
        → tier_eq source target ≡ false
        → Fact sid b
        → Triple
            (λ m. I m × (enough ≡ true → Storage.is_full (tier m target) (length b) ≡ false))
            (promote_room p sid source target b enough)
            (λ _ m. I m)
            E
    unfolding promote_room
    promote_room-Keeps source b false apart fact = Triple-pure false (λ m h. h.0)
    promote_room-Keeps source b true apart fact = record {
      at = λ m h. (relocate-Keeps s sid source target b apart fact may).at m (h.0, h.1 refl);
    }

    promote_read-Keeps :
        (e : CacheEntry) (found : Option Bytes)
        → tier_eq e.tier target ≡ false
        → Triple
            (λ m. I m × (Dict.get m.index sid ≡ some e) × (found ≡ Storage.get (tier m e.tier) sid))
            (promote_read p sid e.tier target found)
            (λ _ m. I m)
            E
    unfolding promote_read
    promote_read-Keeps e none apart = Triple-pure false (λ m h. h.0)
    promote_read-Keeps e (some b) apart =
        Triple-if (is_empty b) _ _ (λ _. Triple-pure false (λ m h. h.0))
          λ _. record {
            at = λ m h.
                let fact = s.reads m sid e b h.0 h.1 (sym h.2) in
                let moved : Triple I _ (λ _ m. I m) E =
                  Triple-bind (gets rounds) _ (λ limit m. I m × (limit ≡ rounds m))
                    (Triple-gets _ (λ m h. (h, refl)))
                    λ limit.
                      Triple-bind _ _
                        (λ enough m.
                          I m
                          × (enough ≡ true → Storage.is_full (tier m target) (length b) ≡ false))
                        (room limit (length b))
                        λ enough. promote_room-Keeps e.tier b enough apart fact in
                moved.at m h.0;
          }

    promote_found-Keeps :
        (o : Option CacheEntry)
        → Triple
            (λ m. I m × (Dict.get m.index sid ≡ o))
            (promote_found p sid target o)
            (λ _ m. I m)
            E
    unfolding promote_found
    promote_found-Keeps none = Triple-pure false (λ m h. h.0)
    promote_found-Keeps (some e) =
        Triple-if (tier_eq e.tier target) _ _ (λ _. Triple-pure false (λ m h. h.0))
          λ apart.
            Triple-bind _ _
              (λ found m.
                I m × (Dict.get m.index sid ≡ some e) × (found ≡ Storage.get (tier m e.tier) sid))
              (Triple-gets _ (λ m h. (h.0, h.1, refl))) (λ found. promote_read-Keeps e found apart)

    pub promote-Keeps : Keeps (promote p sid target)
    unfolding promote
    promote-Keeps =
        Triple-bind _ _ (λ o m. I m × (Dict.get m.index sid ≡ o)) (Triple-gets _ (λ m h. (h, refl)))
          promote_found-Keeps

  module _ (deep : (t : TierName) → Deep levels t) where
    pub demote-Keeps : (sid : String) → Keeps (demote p sid)
    demote-Keeps sid = record {
      at = λ m h.
          (demote_with-Keeps s (evict_from_tier p) sid (λ _. Unit {0})
              (λ m e u _ _ _ _.
                (evict_at-Keeps s levels u (deep u), s.deep_may levels u (deep u)))).at
            m (h, tt);
    }

    demote_all-Keeps : (sids : List String) → Keeps (demote_all p sids)
    unfolding demote_all
    demote_all-Keeps [] = Triple-pure tt (λ m h. h)
    demote_all-Keeps (sid ∷ sids) =
        Triple-bind _ _ (λ _ m. I m) (demote-Keeps sid) (λ _. demote_all-Keeps sids)

    pub run_maintenance-Keeps : Keeps (run_maintenance p)
    unfolding run_maintenance
    run_maintenance-Keeps = Triple-bind _ _ (λ _ m. I m) (Triple-gets _ (λ m h. h)) demote_all-Keeps

-- What `load` does besides a promotion.
pub record IsServed {S : Type 0} (p : EvictionPolicy S) (c : Settings) (I : Manager S → Type 0)
    (E : Error → Manager S → Type 0) : Type 0 where
  pub hits : (m : Manager S) (sid : String) (e : CacheEntry) → I m → I (record_hit p c sid e m)
  pub drops : (m : Manager S) (sid : String) → I m → I (drop_entry sid m)
  pub notes : (m : Manager S) (x : Metric) → I m → I (note x m)
  pub raises : (m : Manager S) (e : Error) → I m → E e m

module _ {S : Type 0} {p : EvictionPolicy S} {c : Settings} {I : Manager S → Type 0}
    {E : Error → Manager S → Type 0} (v : IsServed p c I E) where
  lift-Keeps : {A : Type 0} (r : Result A) → Triple I (lift r) (λ _ m. I m) E
  unfolding lift
  lift-Keeps (ok a) = record { at = λ m h. h }
  lift-Keeps (raise e) = record { at = λ m h. v.raises m e h }

  load_hit-Keeps :
      (sid : String) (e : CacheEntry) (b : Bytes)
      → Triple I (promote p sid hot) (λ _ m. I m) E
      → Triple I (load_hit p c sid e b) (λ _ m. I m) E
  unfolding load_hit
  load_hit-Keeps sid e b promoted =
      Triple-bind _ _ (λ _ m. I m) (record { at = λ m h. unfold modify in v.hits m sid e h })
        λ _.
          Triple-bind _ _ (λ _ m. I m) (lift-Keeps (c.serializer.deserialize b))
            λ kv.
              Triple-if (tier_eq e.tier hot) _ _ (λ _. Triple-pure (some kv) (λ m h. h))
                λ _. Triple-bind _ _ (λ _ m. I m) promoted (λ _. Triple-pure (some kv) (λ m h. h))

  load_missing-Keeps :
      (sid : String) (t : TierName) → Triple I (load_missing p c sid t) (λ _ m. I m) E
  unfolding load_missing
  load_missing-Keeps sid t =
      Triple-bind _ _ (λ _ m. I m) (record { at = λ m h. unfold modify in v.drops m sid h })
        λ _.
          Triple-bind _ _ (λ _ m. I m)
            (record { at = λ m h. unfold modify in v.notes m (miss_missing_data t) h })
            (λ _. Triple-pure none (λ m h. h))

  load_read-Keeps :
      (sid : String) (e : CacheEntry) (found : Option Bytes)
      → Triple I (promote p sid hot) (λ _ m. I m) E
      → Triple I (load_read p c sid e found) (λ _ m. I m) E
  unfolding load_read
  load_read-Keeps sid e none promoted = load_missing-Keeps sid e.tier
  load_read-Keeps sid e (some b) promoted =
      Triple-if (is_empty b) _ _ (λ _. load_missing-Keeps sid e.tier)
        (λ _. load_hit-Keeps sid e b promoted)

  load_found-Keeps :
      (sid : String) (o : Option CacheEntry)
      → Triple I (promote p sid hot) (λ _ m. I m) E
      → Triple I (load_found p c sid o) (λ _ m. I m) E
  unfolding load_found
  load_found-Keeps sid none promoted =
      Triple-bind _ _ (λ _ m. I m)
        (record { at = λ m h. unfold modify in v.notes m miss_not_found h })
        (λ _. Triple-pure none (λ m h. h))
  load_found-Keeps sid (some e) promoted =
      Triple-bind _ _ (λ _ m. I m) (Triple-gets _ (λ m h. h))
        λ found. load_read-Keeps sid e found promoted

  pub load-Keeps :
      (sid : String)
      → Triple I (promote p sid hot) (λ _ m. I m) E
      → Triple I (load p c sid) (λ _ m. I m) E
  unfolding load
  load-Keeps sid promoted =
      Triple-bind _ _ (λ _ m. I m) (Triple-gets _ (λ m h. h)) λ o. load_found-Keeps sid o promoted

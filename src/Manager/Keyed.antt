-- ===== src/Manager/Keyed.antt =====
-- core/tiered_manager.py: the keys of the index and the session ids of its entries, and the dict
-- that `evict_from_tier` builds.
use mathlib.Core.Option
use kv_cache_tier_persistenc.Prelude.{
  String, ◌≡◌, refl, sym, ap, ◌∙◌, Option, none, some, [], ◌∷◌, ◌++◌, arith, eq_iff, eq_refl,
  str_eq, if◌then◌else◌, inl, inr, Bool-cases,
}
use kv_cache_tier_persistenc.Result.{Result-cases}
use kv_cache_tier_persistenc.Dict
use kv_cache_tier_persistenc.Dict.{Dict}
use kv_cache_tier_persistenc.Dict.Bytes.{Bytes}
use kv_cache_tier_persistenc.Exec.Hoare.{Outcome}
use kv_cache_tier_persistenc.Tiers.Storage
use kv_cache_tier_persistenc.Tiers.Storage.{TierName}
use kv_cache_tier_persistenc.Index.{CacheEntry, CacheIndex, tier_eq}
use kv_cache_tier_persistenc.Eviction.Policy.{EvictionPolicy}
use kv_cache_tier_persistenc.Manager.{Manager, in_tier, tier, relocate, delete_in, forget}
use kv_cache_tier_persistenc.Manager.Tiers.{index-set_tier}
use kv_cache_tier_persistenc.Manager.Relocate.{index-relocated, relocate-relocated, relocate-raise}
use kv_cache_tier_persistenc.Manager.Stable.{IsStable}

pub record IsKeyed (index : CacheIndex) : Type 0 where
  pub unique : Dict.IsUnique index
  pub keyed : (j : String) (e : CacheEntry) → Dict.get index j ≡ some e → e.session_id ≡ j

pub adjust-IsKeyed :
    (index : CacheIndex) (sid : String) (f : CacheEntry → CacheEntry)
    → ((e : CacheEntry) → (f e).session_id ≡ e.session_id)
    → IsKeyed index
    → IsKeyed (Dict.adjust index sid f)
adjust-IsKeyed index sid f same h = record {
  unique = Dict.adjust-IsUnique index sid f h.unique;
  keyed = λ j e q. found j (Dict.get index j) refl e (sym (Dict.get-adjust index sid j f) ∙ q);
}
  where
    found :
        (j : String) (o : Option CacheEntry)
        → Dict.get index j ≡ o
        → (e : CacheEntry)
        → (if str_eq sid j then Option.map f (Dict.get index j) else Dict.get index j) ≡ some e
        → e.session_id ≡ j
    found j none g e q = absurd (ground arith)
    found j (some x) g e q = ground (arith, same x, h.keyed j x g)

pub remove-IsKeyed :
    (index : CacheIndex) (sid : String) → IsKeyed index → IsKeyed (Dict.remove index sid)
remove-IsKeyed index sid h = record {
  unique = Dict.remove-IsUnique index sid h.unique;
  keyed = λ j e q. ground (arith, Dict.get-remove index sid j, h.keyed j e);
}

pub put-IsKeyed :
    (index : CacheIndex) (e : CacheEntry) → IsKeyed index → IsKeyed (Dict.put index e.session_id e)
put-IsKeyed index e h = record {
  unique = Dict.put-IsUnique index e.session_id e h.unique;
  keyed = λ j x q.
      ground (arith, Dict.get-put index e.session_id j e, eq_iff e.session_id j, h.keyed j x);
}

-- `{e.session_id: e for e in … if e.tier == tier_name}`, from what was built so far
unfoldable pub by_session : TierName → Dict CacheEntry → CacheIndex → Dict CacheEntry
by_session t built [] = built
by_session t built ((k, e) ∷ index) =
    if tier_eq e.tier t
    then by_session t (Dict.put built e.session_id e) index
    else by_session t built index

put-absent :
    (d : Dict CacheEntry) (k : String) (e : CacheEntry)
    → Dict.get d k ≡ none
    → Dict.put d k e ≡ d ++ (k, e) ∷ []
unfolding Dict.get Dict.put
put-absent [] k e h = refl
put-absent ((j, x) ∷ d) k e h = ground (arith, put-absent d k e)

append-cons : (d r : Dict CacheEntry) (x : String × CacheEntry) → (d ++ x ∷ []) ++ r ≡ d ++ x ∷ r
append-cons [] r x = refl
append-cons (y ∷ d) r x = ap (λ l. y ∷ l) (append-cons d r x)

append-nil : (d : Dict CacheEntry) → d ++ [] ≡ d
append-nil [] = refl
append-nil (x ∷ d) = ap (λ l. x ∷ l) (append-nil d)

get-cons_self :
    (k : String) (e : CacheEntry) (index : CacheIndex) → Dict.get ((k, e) ∷ index) k ≡ some e
unfolding Dict.get
get-cons_self k e index = ground (arith, eq_refl k)

get-cons_of_get :
    (k j : String) (e x : CacheEntry) (index : CacheIndex)
    → Dict.get index k ≡ none
    → Dict.get index j ≡ some x
    → Dict.get ((k, e) ∷ index) j ≡ some x
unfolding Dict.get
get-cons_of_get k j e x index n q = ground (arith, eq_iff k j)

tail-IsKeyed :
    (k : String) (e : CacheEntry) (index : CacheIndex) → IsKeyed ((k, e) ∷ index) → IsKeyed index
tail-IsKeyed k e index h = record {
  unique = h.unique.1;
  keyed = λ j x q. h.keyed j x (get-cons_of_get k j e x index h.unique.0 q);
}

by_session-append :
    (t : TierName) (built : Dict CacheEntry) (index : CacheIndex)
    → IsKeyed index
    → ((j : String) (e : CacheEntry) → Dict.get index j ≡ some e → Dict.get built j ≡ none)
    → by_session t built index ≡ built ++ in_tier t index
unfolding by_session in_tier
by_session-append t built [] h apart = sym (append-nil built)
by_session-append t built ((k, e) ∷ index) h apart = elim (Bool-cases (tier_eq e.tier t)) [
  | inr q ↦ rw q (by_session-append t built index (tail-IsKeyed k e index h) rest_apart)
  | inl q ↦ rw q (
      ap (λ s. by_session t (Dict.put built s e) index) (h.keyed k e (get-cons_self k e index))
      ∙ by_session-append t (Dict.put built k e) index (tail-IsKeyed k e index h) put_apart
      ∙ ap (λ d. d ++ in_tier t index) (put-absent built k e (apart k e (get-cons_self k e index)))
      ∙ append-cons built (in_tier t index) (k, e))
]
  where
    rest_apart : (j : String) (x : CacheEntry) → Dict.get index j ≡ some x → Dict.get built j ≡ none
    rest_apart j x g = apart j x (get-cons_of_get k j e x index h.unique.0 g)

    put_apart :
        (j : String) (x : CacheEntry)
        → Dict.get index j ≡ some x
        → Dict.get (Dict.put built k e) j ≡ none
    put_apart j x g =
        ground (arith, Dict.get-put built k j e, eq_iff k j, rest_apart j x g, h.unique.0)

-- Where the index has each key once, and under it an entry with that session id, the dict that
-- `evict_from_tier` builds from the ids is the part of the index in the tier.
pub by_session-in_tier :
    (t : TierName) (index : CacheIndex) → IsKeyed index → by_session t [] index ≡ in_tier t index
by_session-in_tier t index h = by_session-append t [] index h (λ j e q. unfold Dict.get in refl)

module _ {S : Type 0} (p : EvictionPolicy S) where
  abbrev pub Keyed : Manager S → Type 0
  Keyed m = IsKeyed m.index

  moves :
      (m : Manager S) (sid : String) (source target : TierName) (b : Bytes)
      → Keyed m
      → Outcome (λ _. Keyed) (λ _. Keyed) (relocate sid source target b m)
  moves m sid source target b h = elim (Result-cases (Storage.put (tier m target) sid b)) [
    | inl (st, w) ↦
        rw (relocate-relocated m sid source target st b w, index-relocated m sid source target st)
          (adjust-IsKeyed m.index sid (λ (e : CacheEntry). record e { tier = target }) (λ e. refl)
            h)
    | inr (e, w) ↦ rw (relocate-raise m sid source target b e w) h
  ]

  pub Keyed-IsStable :
      IsStable p Keyed (λ _. Keyed) (λ _ _. Unit {0}) (λ _. Unit {0}) (λ _ _. Unit {0})
  Keyed-IsStable = record {
    reads = λ m sid e b h g r. tt;
    moves = λ m sid source target b apart _ _ _ h. moves m sid source target b h;
    discards = λ m sid t h.
        unfold forget delete_in in
        remove-IsKeyed _ sid (rw (index-set_tier m t (Storage.delete (tier m t) sid).0) h);
    deep_may = λ _ _ _. tt;
    deep_zero = λ m t _ h. h;
    deep_suc = λ d t u m v e _ _ _ _ _. tt;
  }

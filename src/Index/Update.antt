-- ===== src/Index/Update.antt =====
-- core/cache_metadata.py: `CacheIndex.update`. A keyword argument is one of the fields of an entry,
-- or a name that an entry does not have, which `hasattr` passes over.
use mathlib.Core.Option
use kv_cache_tier_persistenc.Prelude.{
  ℕ, String, ◌≡◌, refl, ◌∙◌, inl, inr, Bool-cases, Bool, true, false, List, [], ◌∷◌, str_eq, eq_iff,
  if◌then◌else◌, arith,
}
use kv_cache_tier_persistenc.Dict
use kv_cache_tier_persistenc.Dict.{Dict}
use kv_cache_tier_persistenc.Tiers.Storage.{TierName}
use kv_cache_tier_persistenc.Index.{CacheEntry, CacheIndex}
use kv_cache_tier_persistenc.Manager.Keyed.{IsKeyed, adjust-IsKeyed}

pub data Attribute : Type 0 where
  session_id user_id model_config_hash : String → Attribute
  created_at last_accessed token_count num_blocks : ℕ → Attribute
  tier : TierName → Attribute
  size_bytes access_count : ℕ → Attribute
  metadata : Dict String → Attribute
  unknown : String → Attribute

-- `if hasattr(entry, k): setattr(entry, k, v)`
unfoldable pub set_attribute : Attribute → CacheEntry → CacheEntry
set_attribute (session_id v) e = record e { session_id = v }
set_attribute (user_id v) e = record e { user_id = v }
set_attribute (model_config_hash v) e = record e { model_config_hash = v }
set_attribute (created_at v) e = record e { created_at = v }
set_attribute (last_accessed v) e = record e { last_accessed = v }
set_attribute (token_count v) e = record e { token_count = v }
set_attribute (num_blocks v) e = record e { num_blocks = v }
set_attribute (tier v) e = record e { tier = v }
set_attribute (size_bytes v) e = record e { size_bytes = v }
set_attribute (access_count v) e = record e { access_count = v }
set_attribute (metadata v) e = record e { metadata = v }
set_attribute (unknown k) e = e

unfoldable pub set_attributes : List Attribute → CacheEntry → CacheEntry
unfolding set_attribute
set_attributes [] e = e
set_attributes (a ∷ kwargs) e = set_attributes kwargs (set_attribute a e)

unfoldable pub update : CacheIndex → String → List Attribute → CacheIndex × Bool
unfolding set_attributes
update index sid kwargs =
    if Dict.contains index sid
    then (Dict.adjust index sid (set_attributes kwargs), true)
    else (index, false)

-- Some argument is the session id, which is also the entry's key.
abbrev pub renames : List Attribute → Bool
renames [] = false
renames (session_id v ∷ kwargs) = true
renames (a ∷ kwargs) = renames kwargs

set_attribute-id :
    (a : Attribute) (kwargs : List Attribute) (e : CacheEntry)
    → renames (a ∷ kwargs) ≡ false
    → ((set_attribute a e).session_id ≡ e.session_id) × (renames kwargs ≡ false)
unfolding set_attribute
set_attribute-id (session_id v) kwargs e h = cc
set_attribute-id (user_id v) kwargs e h = (refl, h)
set_attribute-id (model_config_hash v) kwargs e h = (refl, h)
set_attribute-id (created_at v) kwargs e h = (refl, h)
set_attribute-id (last_accessed v) kwargs e h = (refl, h)
set_attribute-id (token_count v) kwargs e h = (refl, h)
set_attribute-id (num_blocks v) kwargs e h = (refl, h)
set_attribute-id (tier v) kwargs e h = (refl, h)
set_attribute-id (size_bytes v) kwargs e h = (refl, h)
set_attribute-id (access_count v) kwargs e h = (refl, h)
set_attribute-id (metadata v) kwargs e h = (refl, h)
set_attribute-id (unknown k) kwargs e h = (refl, h)

set_attributes-id :
    (kwargs : List Attribute) (e : CacheEntry)
    → renames kwargs ≡ false
    → (set_attributes kwargs e).session_id ≡ e.session_id
unfolding set_attributes
set_attributes-id [] e h = refl
set_attributes-id (a ∷ kwargs) e h =
    let (same, rest) = set_attribute-id a kwargs e h in
    set_attributes-id kwargs (set_attribute a e) rest ∙ same

-- Where the index has each key once and under it an entry with that session id, and no argument is
-- a session id: an update answers whether the session is in the index, changes the entry of that
-- session only, and leaves the index so.
pub update-IsKeyed :
    (index : CacheIndex) (sid : String) (kwargs : List Attribute)
    → renames kwargs ≡ false
    → IsKeyed index
    → ((update index sid kwargs).1 ≡ Dict.contains index sid)
      × ((j : String)
          → Dict.get (update index sid kwargs).0 j ≡ (
              if str_eq sid j
              then Option.map (set_attributes kwargs) (Dict.get index j)
              else Dict.get index j))
      × IsKeyed (update index sid kwargs).0
unfolding update
update-IsKeyed index sid kwargs n k = elim (Bool-cases (Dict.contains index sid)) [
  | inl t ↦ rw t (
    refl,
    λ j. Dict.get-adjust index sid j (set_attributes kwargs),
    adjust-IsKeyed index sid (set_attributes kwargs) (λ e. set_attributes-id kwargs e n) k,
  )
  | inr t ↦ rw t (refl, λ j. ground (arith, eq_iff sid j), k)
]

-- ===== src/Index/File/Stored.antt =====
-- core/cache_metadata.py: an index read back from its file.
use kv_cache_tier_persistenc.Prelude.{
  String, ◌≡◌, refl, ◌∙◌, ap, none, some, [], ◌∷◌, ◌++◌, str_eq, eq_iff, if◌then◌else◌, arith,
}
use mathlib.Core.List.{append_assoc, append-nil}
use kv_cache_tier_persistenc.Result.{ok}
use kv_cache_tier_persistenc.Dict
use kv_cache_tier_persistenc.Dict.{Dict}
use kv_cache_tier_persistenc.Tiers.Storage.{TierName, hot, warm, cold}
use kv_cache_tier_persistenc.Index.{CacheEntry, CacheIndex}
use kv_cache_tier_persistenc.Index.File.{
  Json, JsonModule, text, object, tier_text, texts, asdict, lookup, as_text, as_number, as_count,
  as_tier, texts_of, as_texts, all_fields, entry_of_fields, entry_of, entries_json, load_entries,
  load_document, save, load,
}

texts_of-texts : (d : Dict String) → texts_of (texts d) ≡ ok d
unfolding texts_of texts
texts_of-texts [] = refl
texts_of-texts ((k, v) ∷ d) = rw (texts_of-texts d) refl

as_tier-text : (t : TierName) → as_tier (some (text (tier_text t))) ≡ ok t
unfolding as_tier tier_text
as_tier-text hot = refl
as_tier-text warm = refl
as_tier-text cold = refl

entry_of-asdict : (e : CacheEntry) → entry_of (asdict e) ≡ ok e
unfolding entry_of asdict all_fields entry_of_fields lookup as_text as_number as_count as_texts
entry_of-asdict e = rw (as_tier-text e.tier, texts_of-texts e.metadata) refl

put_absent :
    (index : CacheIndex) (k : String) (e : CacheEntry)
    → Dict.get index k ≡ none
    → Dict.put index k e ≡ index ++ (k, e) ∷ []
unfolding Dict.get Dict.put
put_absent [] k e h = refl
put_absent ((j, f) ∷ index) k e h = ground (arith, put_absent index k e)

get-append_none :
    (a : CacheIndex) (k j : String) (e : CacheEntry)
    → Dict.get (a ++ (k, e) ∷ []) j
      ≡ (if Dict.contains a j then Dict.get a j else if str_eq k j then some e else none)
unfolding Dict.get
get-append_none [] k j e = refl
get-append_none ((i, f) ∷ a) k j e = ground (arith, get-append_none a k j e)

-- No key of the second index stands in the first.
abbrev IsApart : CacheIndex → CacheIndex → Type 0
IsApart a [] = Unit
IsApart a ((k, e) ∷ b) = (Dict.get a k ≡ none) × IsApart a b

IsApart-next :
    (a b : CacheIndex) (k : String) (e : CacheEntry)
    → IsApart a b
    → Dict.get b k ≡ none
    → IsApart (a ++ (k, e) ∷ []) b
unfolding Dict.get
IsApart-next a [] k e p n = tt
IsApart-next a ((j, f) ∷ b) k e p n = (
  ground (arith, get-append_none a k j e, eq_iff k j, eq_iff j k),
  IsApart-next a b k e p.1 (ground arith),
)

load_entries-json :
    (a b : CacheIndex)
    → Dict.IsUnique b
    → IsApart a b
    → load_entries a (entries_json b) ≡ ok (a ++ b)
unfolding load_entries entries_json
load_entries-json a [] u p = ap ok (rw append-nil refl)
load_entries-json a ((k, e) ∷ b) u p =
    rw (entry_of-asdict e, put_absent a k e p.0)
      (load_entries-json (a ++ (k, e) ∷ []) b u.1 (IsApart-next a b k e p.1 u.0)
        ∙ ap ok (append_assoc a ((k, e) ∷ []) b))

IsApart-empty : (b : CacheIndex) → IsApart [] b
unfolding Dict.get
IsApart-empty [] = tt
IsApart-empty ((k, e) ∷ b) = (refl, IsApart-empty b)

-- Where `json` reads back the document it wrote, an index, whose keys are distinct as a dict's are,
-- is loaded from the file it was saved to just as it was: keys, order, entries and their metadata.
pub load-save :
    {Text : Type 0} (json : JsonModule Text) (index : CacheIndex)
    → ((j : Json) → json.load (json.dump j) ≡ some j)
    → Dict.IsUnique index
    → load json (some (save json index)) ≡ ok index
unfolding load save load_document
load-save json index r u =
    rw (r (object (entries_json index))) (load_entries-json [] index u (IsApart-empty index))

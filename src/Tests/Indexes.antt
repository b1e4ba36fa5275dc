-- ===== src/Tests/Indexes.antt =====
-- Runs of the index: an update and the file.
use mathlib.Core.Option
use kv_cache_tier_persistenc.Prelude.{
  String, ◌≡◌, refl, some, List, [], ◌∷◌, str_eq, if◌then◌else◌, arith, eq_iff,
}
use kv_cache_tier_persistenc.Result.{ok}
use kv_cache_tier_persistenc.Dict
use kv_cache_tier_persistenc.Dict.{Dict}
use kv_cache_tier_persistenc.Tiers.Storage.{hot, cold}
use kv_cache_tier_persistenc.Index.{CacheIndex}
use kv_cache_tier_persistenc.Index.File
use kv_cache_tier_persistenc.Index.File.{JsonModule, Json}
use kv_cache_tier_persistenc.Index.File.Stored.{load-save}
use kv_cache_tier_persistenc.Index.Update
use kv_cache_tier_persistenc.Index.Update.{
  Attribute, update, set_attributes, renames, update-IsKeyed,
}
use kv_cache_tier_persistenc.Manager.Keyed.{IsKeyed}
use kv_cache_tier_persistenc.Tests.Data.{entry}

abbrev index : CacheIndex
index =
    ("a", entry "a" hot 10 3)
    ∷ ("b", record (entry "b" cold 5 2) { metadata = ("topic", "tiers") ∷ [] })
    ∷ []

index-IsKeyed : IsKeyed index
unfolding Dict.get
index-IsKeyed = record {
  unique = (refl, (refl, tt));
  keyed = λ j e q. ground (arith, eq_iff "a" j, eq_iff "b" j);
}

-- a text that is the document itself
abbrev documents : JsonModule Json
documents = record { dump = λ j. j; load = λ j. some j }

load-save_example : File.load documents (some (File.save documents index)) ≡ ok index
load-save_example = load-save documents index (λ j. refl) index-IsKeyed.unique

abbrev kwargs : List Attribute
kwargs = Update.tier hot ∷ Update.access_count 4 ∷ Update.unknown "color" ∷ []

update-IsKeyed_example :
    ((update index "b" kwargs).1 ≡ Dict.contains index "b")
    × ((j : String)
        → Dict.get (update index "b" kwargs).0 j ≡ (
            if str_eq "b" j
            then Option.map (set_attributes kwargs) (Dict.get index j)
            else Dict.get index j))
    × IsKeyed (update index "b" kwargs).0
update-IsKeyed_example = update-IsKeyed index "b" kwargs refl index-IsKeyed

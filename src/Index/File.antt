-- ===== src/Index/File.antt =====
-- core/cache_metadata.py: `CacheIndex.save` and `load`. Python's `json` is a parameter that turns a
-- document into text and back. A field that holds a value of another type, or a tier that is none of
-- the three, which Python would store as it is, ends in `untyped`.
pub mod Stored
use kv_cache_tier_persistenc.Prelude.{
  ℕ, String, ◌≡◌, Bool, true, false, ◌&&◌, ◌||◌, Option, none, some, List, [], ◌∷◌, map, str_eq,
  if◌then◌else◌,
}
use kv_cache_tier_persistenc.Result.{Result, ok, raise, type_error, untyped, attribute_error, ◌>>=◌}
use kv_cache_tier_persistenc.Dict
use kv_cache_tier_persistenc.Dict.{Dict}
use kv_cache_tier_persistenc.Tiers.Storage.{TierName, hot, warm, cold}
use kv_cache_tier_persistenc.Index.{CacheEntry, CacheIndex}

mutual
  pub data Json : Type 0 where
    number : ℕ → Json
    text : String → Json
    object : Members → Json

  pub data Members : Type 0 where
    end : Members
    member : String → Json → Members → Members

-- `json.dump` and `json.load`; the latter answers none for a JSONDecodeError
pub record JsonModule (Text : Type 0) : Type 0 where
  pub dump : Json → Text
  pub load : Text → Option Json

unfoldable pub tier_text : TierName → String
tier_text hot = "hot"
tier_text warm = "warm"
tier_text cold = "cold"

unfoldable pub texts : Dict String → Members
texts [] = end
texts ((k, v) ∷ d) = member k (text v) (texts d)

-- `asdict(entry)`
unfoldable pub asdict : CacheEntry → Json
unfolding tier_text texts
asdict e = object (
    member "session_id" (text e.session_id) (
      member "user_id" (text e.user_id) (
        member "model_config_hash" (text e.model_config_hash) (
          member "created_at" (number e.created_at) (
            member "last_accessed" (number e.last_accessed) (
              member "token_count" (number e.token_count) (
                member "num_blocks" (number e.num_blocks) (
                  member "tier" (text (tier_text e.tier)) (
                    member "size_bytes" (number e.size_bytes) (
                      member "access_count" (number e.access_count)
                        (member "metadata" (object (texts e.metadata)) end)))))))))))

unfoldable pub lookup : Members → String → Option Json
lookup end k = none
lookup (member j v m) k = if str_eq j k then some v else lookup m k

-- an argument of `CacheEntry(**entry_dict)`, a required one or one with a default
unfoldable pub as_text : Option Json → Result String
as_text (some (text s)) = ok s
as_text (some _) = raise untyped
as_text none = raise type_error

unfoldable pub as_number : Option Json → Result ℕ
as_number (some (number n)) = ok n
as_number (some _) = raise untyped
as_number none = raise type_error

unfoldable pub as_count : Option Json → Result ℕ
unfolding as_number
as_count none = ok 1
as_count (some j) = as_number (some j)

unfoldable pub as_tier : Option Json → Result TierName
as_tier (some (text s)) =
    if str_eq s "hot"
    then ok hot
    else if str_eq s "warm"
    then ok warm
    else if str_eq s "cold"
    then ok cold
    else raise untyped
as_tier (some _) = raise untyped
as_tier none = raise type_error

unfoldable pub texts_of : Members → Result (Dict String)
texts_of end = ok []
texts_of (member k (text v) m) = texts_of m >>= λ d. ok ((k, v) ∷ d)
texts_of (member k _ m) = raise untyped

unfoldable pub as_texts : Option Json → Result (Dict String)
unfolding texts_of
as_texts none = ok []
as_texts (some (object m)) = texts_of m
as_texts (some _) = raise untyped

abbrev pub is_field : String → Bool
is_field k =
    str_eq k "session_id"
    || str_eq k "user_id"
    || str_eq k "model_config_hash"
    || str_eq k "created_at"
    || str_eq k "last_accessed"
    || str_eq k "token_count"
    || str_eq k "num_blocks"
    || str_eq k "tier"
    || str_eq k "size_bytes"
    || str_eq k "access_count"
    || str_eq k "metadata"

unfoldable pub all_fields : Members → Bool
all_fields end = true
all_fields (member k v m) = is_field k && all_fields m

unfoldable pub entry_of_fields : Members → Result CacheEntry
unfolding lookup as_text as_number as_count as_tier as_texts
entry_of_fields m = do
  session_id ← as_text (lookup m "session_id")
  user_id ← as_text (lookup m "user_id")
  model_config_hash ← as_text (lookup m "model_config_hash")
  created_at ← as_number (lookup m "created_at")
  last_accessed ← as_number (lookup m "last_accessed")
  token_count ← as_number (lookup m "token_count")
  num_blocks ← as_number (lookup m "num_blocks")
  tier ← as_tier (lookup m "tier")
  size_bytes ← as_number (lookup m "size_bytes")
  access_count ← as_count (lookup m "access_count")
  metadata ← as_texts (lookup m "metadata")
  ok (record {
    session_id = session_id;
    user_id = user_id;
    model_config_hash = model_config_hash;
    created_at = created_at;
    last_accessed = last_accessed;
    token_count = token_count;
    num_blocks = num_blocks;
    tier = tier;
    size_bytes = size_bytes;
    access_count = access_count;
    metadata = metadata;
  })

-- `CacheEntry(**entry_dict)`
unfoldable pub entry_of : Json → Result CacheEntry
unfolding entry_of_fields all_fields
entry_of (object m) = if all_fields m then entry_of_fields m else raise type_error
entry_of _ = raise type_error

-- `{sid: asdict(entry) for sid, entry in self._entries.items()}`
unfoldable pub entries_json : CacheIndex → Members
unfolding asdict
entries_json [] = end
entries_json ((sid, e) ∷ index) = member sid (asdict e) (entries_json index)

-- `for sid, entry_dict in data.items(): index._entries[sid] = CacheEntry(**entry_dict)`
unfoldable pub load_entries : CacheIndex → Members → Result CacheIndex
unfolding entry_of
load_entries index end = ok index
load_entries index (member sid j m) = entry_of j >>= λ e. load_entries (Dict.put index sid e) m

unfoldable pub load_document : Option Json → Result CacheIndex
unfolding load_entries
load_document none = ok []
load_document (some (object m)) = load_entries [] m
load_document (some _) = raise attribute_error

module _ {Text : Type 0} (json : JsonModule Text) where
  unfoldable pub save : CacheIndex → Text
  unfolding entries_json
  save index = json.dump (object (entries_json index))

  -- The file at the path, or none where there is none (FileNotFoundError).
  unfoldable pub load : Option Text → Result CacheIndex
  unfolding load_document
  load none = ok []
  load (some file) = load_document (json.load file)

-- ===== src/Tests/Data.antt =====
-- A small system: three tiers with one session each, and a serializer of one byte per token.
use kv_cache_tier_persistenc.Prelude.{
  ℕ, String, ◌≡◌, refl, false, some, List, [], ◌∷◌, map, arith, str_eq, eq_iff, if◌then◌else◌,
  length,
}
use kv_cache_tier_persistenc.Result.{ok}
use kv_cache_tier_persistenc.Dict
use kv_cache_tier_persistenc.Dict.{Dict}
use kv_cache_tier_persistenc.Dict.Bytes.{Bytes}
use kv_cache_tier_persistenc.Config.{default}
use kv_cache_tier_persistenc.Tensor.{KvData, Tensor, float16}
use kv_cache_tier_persistenc.Tiers.Hot.{HotTier}
use kv_cache_tier_persistenc.Tiers.Warm.{WarmTier}
use kv_cache_tier_persistenc.Tiers.Cold.{LocalColdBackend}
use kv_cache_tier_persistenc.Tiers.Storage.{
  TierName, hot, warm, cold, hot_tier, warm_tier, local_cold,
}
use kv_cache_tier_persistenc.Index.{CacheEntry}
use kv_cache_tier_persistenc.Manager.{Manager, tier}
use kv_cache_tier_persistenc.Prelude.{inl, inr}
use kv_cache_tier_persistenc.Dict.Bytes.{sizes_of, total}
use kv_cache_tier_persistenc.Tiers.Storage.{files}
use kv_cache_tier_persistenc.Tiers.Storage.Laws as TierLaws
use kv_cache_tier_persistenc.Tiers.Storage.Laws.{IsHealthy}
use kv_cache_tier_persistenc.Manager.Tiers.{stored}
use kv_cache_tier_persistenc.Manager.Holds.{Holds}
use kv_cache_tier_persistenc.Manager.Fits.{Fits}
use kv_cache_tier_persistenc.Manager.Ready.{IsReady}
use kv_cache_tier_persistenc.Manager.Requests.{Settings}

abbrev pub entry : String → TierName → ℕ → ℕ → CacheEntry
entry sid t last size = record {
  session_id = sid;
  user_id = "u";
  model_config_hash = "h";
  created_at = 0;
  last_accessed = last;
  token_count = size;
  num_blocks = 1;
  tier = t;
  size_bytes = size;
  access_count = 1;
  metadata = [];
}

abbrev pub bytes_a : Bytes
bytes_a = 1 ∷ 2 ∷ 3 ∷ []

abbrev pub bytes_b : Bytes
bytes_b = 4 ∷ 5 ∷ []

abbrev pub bytes_c : Bytes
bytes_c = 6 ∷ []

abbrev pub content : String → Bytes
content j = if str_eq "a" j then bytes_a else if str_eq "b" j then bytes_b else bytes_c

abbrev pub hot_a : HotTier
hot_a = record {
  capacity_bytes = 4;
  storage = ("a", bytes_a) ∷ [];
  sizes = ("a", 3) ∷ [];
  current_bytes = 3;
}

abbrev pub warm_b : WarmTier
warm_b = record { capacity_bytes = 4; files = ("b", bytes_b) ∷ []; io_error = λ k. false }

abbrev pub cold_c : LocalColdBackend
cold_c = record { capacity_bytes = 0; files = ("c", bytes_c) ∷ []; io_error = λ k. false }

abbrev pub order : List String
order = "c" ∷ "b" ∷ "a" ∷ []

abbrev pub system : Manager (List String)
system = record {
  hot_tier = hot_tier hot_a;
  warm_tier = warm_tier warm_b;
  cold_tier = local_cold cold_c;
  index = ("a", entry "a" hot 10 3) ∷ ("b", entry "b" warm 5 2) ∷ ("c", entry "c" cold 1 1) ∷ [];
  policy = order;
  now = 20;
  metrics = [];
}

-- one head, and a byte for each token
abbrev pub tensor : Bytes → Tensor
tensor b = record {
  dtype = float16;
  heads = 1;
  tokens = length b;
  head_dim = 1;
  cells = map (λ x. x ∷ []) b ∷ [];
}

abbrev pub kv_of : Bytes → KvData
kv_of b = (0, (tensor b, tensor b)) ∷ []

abbrev row_bytes : List (List ℕ) → Bytes
row_bytes ((x ∷ r) ∷ rows) = x ∷ row_bytes rows
row_bytes _ = []

abbrev head_bytes : List (List (List ℕ)) → Bytes
head_bytes [] = []
head_bytes (rows ∷ heads) = row_bytes rows

abbrev data_bytes : KvData → Bytes
data_bytes [] = []
data_bytes ((i, (k, v)) ∷ d) = head_bytes k.cells

abbrev pub settings : Settings
settings = record {
  model = default;
  serializer = record {
    serialize = λ kv model. ok (data_bytes kv);
    deserialize = λ b. ok (kv_of b);
  };
  config_hash = λ model. "h";
}

healthy : (t : TierName) → IsHealthy (tier system t)
unfolding tier
healthy hot = tt
healthy warm = λ k. refl
healthy cold = λ k. refl

pub system-IsReady : IsReady system
unfolding Dict.get
system-IsReady = record { healthy = healthy; unique = (refl, (refl, (refl, tt))) }

stored_at :
    (j : String) (e : CacheEntry)
    → Dict.get system.index j ≡ some e
    → (stored system e.tier j ≡ some (content j)) × (e.size_bytes ≡ length (content j))
unfolding Dict.get tier files
stored_at j e q = ground (arith, eq_iff "a" j, eq_iff "b" j, eq_iff "c" j)

pub system-Holds : Holds content system
system-Holds = record { at = stored_at }

valid : (t : TierName) → TierLaws.IsValid (tier system t)
unfolding tier Dict.get total sizes_of
valid hot = record { unique = (refl, tt); sized = refl; counted = refl; fits = inr (omega arith) }
valid warm = inr (omega arith)
valid cold = inl refl

pub system-Fits : Fits system
system-Fits = record { at = valid }

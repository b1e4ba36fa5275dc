-- ===== src/Tests/Wire.antt =====
-- Instances of what is proved of the raw binary format and of the manager over it.
use kv_cache_tier_persistenc.Prelude.{
  ℕ, ◌≡◌, ◌≢◌, refl, false, none, some, [], ◌∷◌, ◌++◌, arith, is_empty, take,
}
use kv_cache_tier_persistenc.Result.{ok, raise, checksum_error}
use kv_cache_tier_persistenc.Exec.Hoare.{Outcome}
use kv_cache_tier_persistenc.Dict.Bytes.{Bytes}
use kv_cache_tier_persistenc.Config.{ModelConfig}
use kv_cache_tier_persistenc.Tensor.{Tensor, float16, KvData, layer}
use kv_cache_tier_persistenc.Eviction.Lru.{lru, lru-IsSound}
use kv_cache_tier_persistenc.Manager.Requests.{save, load}
use kv_cache_tier_persistenc.Manager.Requests.Saved.{with_content}
use kv_cache_tier_persistenc.Manager.Requests.RoundTrip.{Loaded, OtherwiseKept}
use kv_cache_tier_persistenc.Serialization.Raw.{serialize, deserialize, zeros}
use kv_cache_tier_persistenc.Serialization.Raw.Payload.{IsDense, HasShape}
use kv_cache_tier_persistenc.Serialization.Raw.RoundTrip.{
  Fits, restored, serialize-deserialize, deserialize-replaced,
}
use kv_cache_tier_persistenc.Serialization.Compressed.{no_compressor}
use kv_cache_tier_persistenc.Serialization.Compressed.Stored.{stored_settings, save-load_same}
use kv_cache_tier_persistenc.Tests.Data.{system, content, system-IsReady, system-Holds}
use kv_cache_tier_persistenc.Tests.Codecs.{codec, codec-IsCodec, no_compressor-IsCompressor}

-- two layers with one head of one half-precision number for each of two tokens
abbrev model : ModelConfig
model = record { num_layers = 2; num_heads = 1; head_dim = 1; block_size = 16; dtype = "float16" }

abbrev two_tokens : ℕ → Tensor
two_tokens n = record {
  dtype = float16;
  heads = 1;
  tokens = 2;
  head_dim = 1;
  cells = ((n ∷ 0 ∷ []) ∷ (n ∷ 1 ∷ []) ∷ []) ∷ [];
}

abbrev kv : KvData
kv = (0, (two_tokens 1, two_tokens 2)) ∷ (1, (two_tokens 3, two_tokens 4)) ∷ []

two_tokens-HasShape : (n : ℕ) → HasShape model 2 (two_tokens n)
two_tokens-HasShape n = record {
  shaped = (refl, (refl, (refl, (refl, tt)), tt));
  dtype = refl;
  heads = refl;
  token_count = refl;
  head_dim = refl;
}

kv-IsDense : IsDense model 2 0 kv
kv-IsDense = (
  refl,
  two_tokens-HasShape 1,
  two_tokens-HasShape 2,
  (refl, two_tokens-HasShape 3, two_tokens-HasShape 4, tt),
)

kv-Fits : Fits model 2
kv-Fits = record {
  num_layers = omega arith;
  num_heads = omega arith;
  head_dim = omega arith;
  token_count = omega arith;
}

serialize-deserialize_example :
    (b : Bytes) × (serialize codec kv model ≡ ok b)
    × (deserialize codec b ≡ ok (kv, restored model))
    × (is_empty b ≡ false)
serialize-deserialize_example =
    serialize-deserialize codec codec-IsCodec model 2 kv kv-IsDense refl (omega arith) kv-Fits

save-load_same_example :
    (b : Bytes) × ((stored_settings codec no_compressor model (λ c. "h")).serializer.serialize kv
        model
      ≡ ok b)
    × Outcome
        (λ _ m'.
          Loaded
            (with_content content "d" b)
            (some kv)
            (load lru (stored_settings codec no_compressor model (λ c. "h")) "d" m'))
        (OtherwiseKept content "d")
        (save lru (stored_settings codec no_compressor model (λ c. "h")) "d" "u" kv none system)
save-load_same_example =
    save-load_same lru lru-IsSound codec codec-IsCodec no_compressor no_compressor-IsCompressor
      model (λ c. "h") content "d" "u" kv none system 2 kv-IsDense refl (omega arith) (omega arith)
      kv-Fits system-IsReady system-Holds

-- the file of the session: the header, its padding and the payload of 16 bytes
abbrev header : Bytes
header =
    75
    ∷ 86
    ∷ 67
    ∷ 65
    ∷ 67
    ∷ 72
    ∷ 69
    ∷ 0
    ∷ 2
    ∷ 0
    ∷ 2
    ∷ 0
    ∷ 1
    ∷ 0
    ∷ 1
    ∷ 0
    ∷ 2
    ∷ 0
    ∷ 0
    ∷ 0
    ∷ 0
    ∷ 16
    ∷ 0
    ∷ 0
    ∷ 0
    ∷ zeros 39

abbrev payload : Bytes
payload = 1 ∷ 0 ∷ 1 ∷ 1 ∷ 2 ∷ 0 ∷ 2 ∷ 1 ∷ 3 ∷ 0 ∷ 3 ∷ 1 ∷ 4 ∷ 0 ∷ 4 ∷ 1 ∷ []

kv_stored : serialize codec kv model ≡ ok (header ++ payload)
unfolding serialize layer
kv_stored = refl

truncated : codec.crc32 (9 ∷ []) ≢ codec.crc32 payload
truncated h = omega (arith, h)

deserialize-replaced_example :
    deserialize codec (take 64 (header ++ payload) ++ 9 ∷ []) ≡ raise checksum_error
deserialize-replaced_example =
    deserialize-replaced codec codec-IsCodec model 2 kv kv-IsDense refl (omega arith) kv-Fits
      (header ++ payload) (9 ∷ []) kv_stored truncated

-- ===== src/Manager/Init/Known.antt =====
-- The names of serializers, compressors and policies that the factories know.
use kv_cache_tier_persistenc.Prelude.{ℕ, String, ◌≡◌, ◌⊎◌, inl, inr, ap}
use kv_cache_tier_persistenc.Result.{ok}
use kv_cache_tier_persistenc.Float.{Floats}
use kv_cache_tier_persistenc.Config.{SystemConfig}
use kv_cache_tier_persistenc.Eviction.Factory as Factory
use kv_cache_tier_persistenc.Serialization.Compressed.{Compressor, Serializer, create_compressor}
use kv_cache_tier_persistenc.Serialization.Safetensors.{create_serializer}
use kv_cache_tier_persistenc.Eviction.Factory.{Policy, create_eviction_policy, created}
use kv_cache_tier_persistenc.Manager.Init.{Platform}

-- The names of a configuration are among those that the factories know.
pub record IsKnown {F : Type 0} (c : SystemConfig F) : Type 0 where
  pub format : (c.serialization.format ≡ "safetensors") ⊎ (c.serialization.format ≡ "raw_binary")
  pub compression :
      (c.serialization.compression ≡ "none")
      ⊎ ((c.serialization.compression ≡ "lz4") ⊎ (c.serialization.compression ≡ "zstd"))
  pub policy :
      (c.eviction.policy ≡ "lru")
      ⊎ ((c.eviction.policy ≡ "ttl")
          ⊎ ((c.eviction.policy ≡ "predictive")
              ⊎ ((c.eviction.policy ≡ "value_density") ⊎ (c.eviction.policy ≡ "space_time"))))

module _ {W : Type 0} (p : Platform W) where
  pub serializer-known :
      (name : String)
      → (name ≡ "safetensors") ⊎ (name ≡ "raw_binary")
      → (s : Serializer) × (create_serializer p.library p.codec name ≡ ok s)
  unfolding create_serializer
  serializer-known name (inl e) = (_, ap (create_serializer p.library p.codec) e)
  serializer-known name (inr e) = (_, ap (create_serializer p.library p.codec) e)

  pub compressor-known :
      (name : String) (level : ℕ)
      → (name ≡ "none") ⊎ ((name ≡ "lz4") ⊎ (name ≡ "zstd"))
      → (z : Compressor) × (create_compressor p.lz4 p.zstd name level ≡ ok z)
  unfolding create_compressor
  compressor-known name level (inl e) = (_, ap (λ n. create_compressor p.lz4 p.zstd n level) e)
  compressor-known name level (inr (inl e)) =
      (_, ap (λ n. create_compressor p.lz4 p.zstd n level) e)
  compressor-known name level (inr (inr e)) =
      (_, ap (λ n. create_compressor p.lz4 p.zstd n level) e)

pub policy-known :
    {F : Type 0} (f : Floats F) (name : String) (o : Factory.Options F)
    → (name ≡ "lru")
      ⊎ ((name ≡ "ttl")
          ⊎ ((name ≡ "predictive") ⊎ ((name ≡ "value_density") ⊎ (name ≡ "space_time"))))
    → (s : Policy F) × (create_eviction_policy f name o ≡ ok s)
unfolding create_eviction_policy
policy-known f name o (inl e) = (_, ap (λ n. create_eviction_policy f n o) e)
policy-known f name o (inr (inl e)) = (_, ap (λ n. create_eviction_policy f n o) e)
policy-known f name o (inr (inr (inl e))) = (_, ap (λ n. create_eviction_policy f n o) e)
policy-known f name o (inr (inr (inr (inl e)))) = (_, ap (λ n. create_eviction_policy f n o) e)
policy-known f name o (inr (inr (inr (inr e)))) = (_, ap (λ n. create_eviction_policy f n o) e)

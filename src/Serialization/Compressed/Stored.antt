-- ===== src/Serialization/Compressed/Stored.antt =====
-- serialization/ under core/tiered_manager.py: the manager over the raw binary format and a
-- compressor.
use kv_cache_tier_persistenc.Prelude.{
  ℕ, ◌+◌, ◌-◌, ◌/◌, ◌<◌, String, ◌≡◌, refl, Option, some, length, arith, ◌∷◌, [],
}
use kv_cache_tier_persistenc.Result.{ok}
use kv_cache_tier_persistenc.Exec.Hoare.{Outcome}
use kv_cache_tier_persistenc.Dict.{Dict}
use kv_cache_tier_persistenc.Dict.Bytes.{Bytes}
use kv_cache_tier_persistenc.Config.{ModelConfig}
use kv_cache_tier_persistenc.Tensor.{KvData, token_count, layer}
use kv_cache_tier_persistenc.Eviction.Policy.{EvictionPolicy, IsSound}
use kv_cache_tier_persistenc.Manager.{Manager, num_blocks}
use kv_cache_tier_persistenc.Manager.Ready.{IsReady}
use kv_cache_tier_persistenc.Manager.Holds.{Holds}
use kv_cache_tier_persistenc.Manager.Requests.{Settings, save, load}
use kv_cache_tier_persistenc.Manager.Requests.Saved.{with_content}
use kv_cache_tier_persistenc.Manager.Requests.RoundTrip.{Loaded, OtherwiseKept, save-load}
use kv_cache_tier_persistenc.Serialization.Raw.{Codec}
use kv_cache_tier_persistenc.Serialization.Raw.Payload.{IsCodec, IsDense}
use kv_cache_tier_persistenc.Serialization.Raw.RoundTrip.{Fits, restored, serialize-deserialize}
use kv_cache_tier_persistenc.Serialization.Compressed.{
  Compressor, IsCompressor, raw_binary, compressed, compressed-reads, for_manager,
}

-- The settings of a manager with the raw binary format and the compressor.
abbrev pub stored_settings : Codec → Compressor → ModelConfig → (ModelConfig → String) → Settings
stored_settings z x model hash = record {
  model = model;
  serializer = for_manager (compressed (raw_binary z) x);
  config_hash = hash;
}

num_blocks-positive :
    (c : ModelConfig) (tokens : ℕ)
    → 0 < c.block_size
    → num_blocks c tokens ≡ ok ((tokens + c.block_size - 1) / c.block_size)
unfolding num_blocks
num_blocks-positive c tokens h = ground (arith, h)

token_count-IsDense :
    (c : ModelConfig) (tokens : ℕ) (kv : KvData)
    → IsDense c tokens 0 kv
    → 0 < length kv
    → token_count kv ≡ ok tokens
unfolding token_count layer
token_count-IsDense c tokens [] h n = absurd (omega (arith, n))
token_count-IsDense c tokens ((j, (k, v)) ∷ d) h n = ground (arith, h.0, h.1.token_count)

module _ {S : Type 0} (p : EvictionPolicy S) (sound : IsSound p) (z : Codec) (codec : IsCodec z)
    (x : Compressor) (compressor : IsCompressor x) (model : ModelConfig)
    (hash : ModelConfig → String) where
  abbrev c : Settings
  c = stored_settings z x model hash

  -- A manager over the raw binary format under a compressor that decompresses what it
  -- compressed, with a sound policy, in a ready state in which every session holds its content,
  -- and data of the model's layers in order whose sizes fit the header, one layer at least and a
  -- positive block size: a load after a save that returns gives the data that were saved, and
  -- each session of the index still holds what it should; a save that raises raises
  -- `MemoryError`, and the other sessions hold what they held.
  pub save-load_same :
      (content : String → Bytes) (sid uid : String) (kv : KvData) (md : Option (Dict String))
      (m : Manager S) (tokens : ℕ)
      → IsDense model tokens 0 kv
      → length kv ≡ model.num_layers
      → 0 < model.num_layers
      → 0 < model.block_size
      → Fits model tokens
      → IsReady m
      → Holds content m
      → (b : Bytes) × (c.serializer.serialize kv model ≡ ok b)
        × Outcome
            (λ _ m'. Loaded (with_content content sid b) (some kv) (load p c sid m'))
            (OtherwiseKept content sid)
            (save p c sid uid kv md m)
  save-load_same content sid uid kv md m tokens dense all_layers some_layer block fits ready holds =
      let (b, w, r, full) =
        serialize-deserialize z codec model tokens kv dense all_layers some_layer fits in
      let (w', r') =
        compressed-reads (raw_binary z) x kv model b (kv, restored model) compressor w r in
      let written : c.serializer.serialize kv model ≡ ok (x.compress b) =
        unfold for_manager in w' in
      let read : c.serializer.deserialize (x.compress b) ≡ ok kv =
        unfold for_manager in rw r' refl in
      (
        x.compress b,
        written,
        save-load p c sound content sid uid kv kv md m (x.compress b) tokens _ written read
            (compressor.frame b full)
            (token_count-IsDense model tokens kv dense (rw all_layers some_layer))
            (num_blocks-positive model tokens block) ready holds,
      )

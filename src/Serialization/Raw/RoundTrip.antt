-- ===== src/Serialization/Raw/RoundTrip.antt =====
-- serialization/raw_binary_serde.py: `serialize` and then `deserialize`, with the payload as it
-- was or replaced.
use native.Mathlib.Nat.{mul-add, mul_assoc}
use kv_cache_tier_persistenc.Prelude.{
  ℕ, ◌+◌, ◌*◌, ◌≤◌, ◌<◌, ◌≡◌, ◌≢◌, refl, sym, ap, ◌∙◌, true, false, [], ◌∷◌, ◌++◌, arith, length,
  is_empty, take, drop, Bool-cases, inl, inr, str_eq, ◌||◌, if◌then◌else◌, ◌==◌, ltb, some,
}
use kv_cache_tier_persistenc.Result.{ok-injective, ok, raise, checksum_error}
use kv_cache_tier_persistenc.Dict.Bytes.{Bytes}
use kv_cache_tier_persistenc.Config.{ModelConfig}
use kv_cache_tier_persistenc.Tensor.{Tensor, KvData, layer}
use kv_cache_tier_persistenc.Serialization.Raw.{
  Codec, Header, header_bytes, header_of, tensor_bytes, encode, serialize, read_layers, read_body,
  deserialize, config_of, pack, payload_of, is_missing, dtype_enum_of,
}
use kv_cache_tier_persistenc.Serialization.Raw.Framing.{
  IsEncodable, pack-IsEncodable, unpack-header_bytes, drop-header_bytes, version-header_bytes,
  magic-header_bytes, length-header_bytes,
}
use kv_cache_tier_persistenc.Serialization.Raw.Payload.{
  IsCodec, IsDense, Found-self, is_missing-Found, bytes_of, payload_of-Found, length-bytes_of,
  read_layers-bytes_of,
}

-- The sizes of the configuration and of the data fit the header's fields.
pub record Fits (c : ModelConfig) (tokens : ℕ) : Type 0 where
  pub num_layers : c.num_layers < 65536
  pub num_heads : c.num_heads < 65536
  pub head_dim : c.head_dim < 65536
  pub token_count : tokens < 4294967296

dtype_enum_of-lt : (c : ModelConfig) → dtype_enum_of c < 256
dtype_enum_of-lt c = ground arith

-- The configuration, with the block size and the name of the type that the format gives.
abbrev pub restored : ModelConfig → ModelConfig
restored c = record c {
  block_size = 16;
  dtype = if str_eq c.dtype "float16" || str_eq c.dtype "fp16" then "float16" else "float32";
}

ltb-false : (n m : ℕ) → m ≤ n → ltb n m ≡ false
ltb-false n m h = ground arith

eq_self : (n : ℕ) → n == n ≡ true
eq_self n = ground arith

eq_apart : (n m : ℕ) → n ≢ m → n == m ≡ false
eq_apart n m h = ground (arith, h)

module _ (z : Codec) where
  serialize-layer :
      (kv : KvData) (c : ModelConfig) (k v : Tensor) (b : Bytes)
      → layer kv 0 ≡ some (k, v)
      → is_missing kv 0 c.num_layers ≡ false
      → encode z kv c (k, v) ≡ ok b
      → serialize z kv c ≡ ok b
  unfolding serialize
  serialize-layer [] c k v b l complete e = absurd (unfold layer in cc)
  serialize-layer (x ∷ d) c k v b l complete e = rw (complete, l, e) refl

  read_body-ok :
      (h : Header) (content : Bytes) (kv : KvData)
      → ltb (length content) (64 + 2 * h.num_layers * tensor_bytes h) ≡ false
      → read_layers z h content 64 0 h.num_layers ≡ ok kv
      → read_body z h content ≡ ok (kv, config_of h)
  unfolding read_body
  read_body-ok h content kv long r = rw (long, r) refl

  config_of-header_of :
      (c : ModelConfig) (tokens : ℕ) (payload : Bytes)
      → config_of (header_of z c tokens payload) ≡ restored c
  config_of-header_of c tokens payload =
      elim (Bool-cases (str_eq c.dtype "float16" || str_eq c.dtype "fp16")) [
        | inl q ↦ rw q refl
        | inr q ↦ rw q refl
      ]

module _ (z : Codec) (laws : IsCodec z) (c : ModelConfig) (tokens : ℕ) where
  IsEncodable-header_of :
      (payload : Bytes) → Fits c tokens → IsEncodable (header_of z c tokens payload)
  IsEncodable-header_of payload f = record {
    num_layers = f.num_layers;
    num_heads = f.num_heads;
    head_dim = f.head_dim;
    token_count = f.token_count;
    dtype_enum = dtype_enum_of-lt c;
    crc = laws.crc payload;
  }

  -- Bytes that begin with a header of version 2 and go on with a payload that the checksum fits are
  -- read by the header; else they are refused.
  deserialize-header_bytes :
      (h : Header) (payload : Bytes)
      → deserialize z (header_bytes h ++ payload) ≡ (
          if z.crc32 payload == h.crc
          then read_body z h (header_bytes h ++ payload)
          else raise checksum_error)
  unfolding deserialize
  deserialize-header_bytes h payload = ground (
    arith,
    length-header_bytes h payload,
    magic-header_bytes h payload,
    version-header_bytes h payload,
    unpack-header_bytes h payload,
  )

  module _ (kv : KvData) (dense : IsDense c tokens 0 kv) (all_layers : length kv ≡ c.num_layers)
      (some_layer : 0 < c.num_layers) (fits : Fits c tokens) where
    abbrev payload : Bytes
    payload = bytes_of z laws c tokens kv

    abbrev header : Header
    header = header_of z c tokens payload

    gathered : payload_of z kv 0 c.num_layers ≡ ok payload
    gathered =
        ap (payload_of z kv 0) (sym all_layers)
        ∙ payload_of-Found z laws c tokens kv kv 0 dense (Found-self c tokens 0 kv dense)

    complete : is_missing kv 0 c.num_layers ≡ false
    complete =
        ap (is_missing kv 0) (sym all_layers)
        ∙ is_missing-Found z laws c tokens kv kv 0 dense (Found-self c tokens 0 kv dense)

    packed : pack header ≡ ok (header_bytes header)
    packed = pack-IsEncodable header (IsEncodable-header_of payload fits)

    first_layer :
        (d : KvData)
        → IsDense c tokens 0 d
        → 0 < length d
        → (k : Tensor) × (v : Tensor) × (layer d 0 ≡ some (k, v)) × (k.tokens ≡ tokens)
    unfolding layer
    first_layer [] h n = absurd (omega (arith, n))
    first_layer ((j, (k, v)) ∷ d) h n = (k, v, ground (arith, h.0), h.1.token_count)

    encoded :
        (k v : Tensor)
        → k.tokens ≡ tokens
        → encode z kv c (k, v) ≡ ok (header_bytes header ++ payload)
    unfolding encode
    encoded k v e = rw (gathered, e, packed) refl

    serialize-header_bytes : serialize z kv c ≡ ok (header_bytes header ++ payload)
    serialize-header_bytes =
        let (k, v, e, t) = first_layer kv dense (rw all_layers some_layer) in
        serialize-layer z kv c k v (header_bytes header ++ payload) e complete (encoded k v t)

    long_enough :
        ltb (length (header_bytes header ++ payload)) (64 + 2 * c.num_layers * tensor_bytes header)
        ≡ false
    long_enough = ltb-false _ _ (
        omega (
          arith,
          length-header_bytes header payload,
          length-bytes_of z laws c tokens payload kv 0 dense,
          mul_assoc 2 c.num_layers (tensor_bytes header),
          mul-add c.num_layers (tensor_bytes header) (tensor_bytes header),
          ap (λ n. n * (tensor_bytes header + tensor_bytes header)) all_layers,
        ))

    layers_read : read_layers z header (header_bytes header ++ payload) 64 0 c.num_layers ≡ ok kv
    layers_read =
        ap (read_layers z header (header_bytes header ++ payload) 64 0) (sym all_layers)
        ∙ read_layers-bytes_of z laws c tokens payload (header_bytes header ++ payload) kv 64 0
            dense (drop-header_bytes header payload)

    body : read_body z header (header_bytes header ++ payload) ≡ ok (kv, restored c)
    body =
        read_body-ok z header (header_bytes header ++ payload) kv long_enough layers_read
        ∙ ap (λ x. ok (kv, x)) (config_of-header_of z c tokens payload)

    -- Data of a model's layers in order, one layer at least, each with arrays of the model's
    -- shape and type, whose sizes fit the header, serialize; the bytes are not empty, and
    -- deserialize to the data and to the configuration with the default block size and the
    -- format's name of the type.
    pub serialize-deserialize :
        (b : Bytes) × (serialize z kv c ≡ ok b)
        × (deserialize z b ≡ ok (kv, restored c))
        × (is_empty b ≡ false)
    serialize-deserialize = (
      header_bytes header ++ payload,
      serialize-header_bytes,
      deserialize-header_bytes header payload ∙ rw (eq_self (z.crc32 payload)) body,
      refl,
    )

    -- Where data of a model's layers in order, one at least, whose sizes fit the header, are
    -- serialized and everything after the header is replaced, `deserialize` raises
    -- `ChecksumError` for each replacement whose CRC32 differs from that of the payload.
    pub deserialize-replaced :
        (b other : Bytes)
        → serialize z kv c ≡ ok b
        → z.crc32 other ≢ z.crc32 (drop 64 b)
        → deserialize z (take 64 b ++ other) ≡ raise checksum_error
    deserialize-replaced b other e differs =
        ap (λ x. deserialize z (take 64 x ++ other)) (sym same)
        ∙ deserialize-header_bytes header other
        ∙ rw (eq_apart (z.crc32 other) (z.crc32 payload) apart) refl
      where
        same : header_bytes header ++ payload ≡ b
        same = ok-injective (sym serialize-header_bytes ∙ e)

        apart : z.crc32 other ≢ z.crc32 payload
        apart q = differs (q ∙ ap (λ x. z.crc32 (drop 64 x)) same)

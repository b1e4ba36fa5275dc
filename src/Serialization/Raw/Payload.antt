-- ===== src/Serialization/Raw/Payload.antt =====
-- The payload: the bytes of the layers in order, and reading them back from where they start.
use native.Mathlib.Nat.{add-mul}
use kv_cache_tier_persistenc.Prelude.{
  ℕ, suc, ◌+◌, ◌*◌, ◌<◌, ◌≡◌, refl, sym, ap, ◌∙◌, false, some, List, [], ◌∷◌, ◌++◌, arith, length,
  take, drop, length-append, take-append, drop-append, drop-sum,
}
use kv_cache_tier_persistenc.Result.{ok}
use kv_cache_tier_persistenc.Dict.Bytes.{Bytes}
use kv_cache_tier_persistenc.Config.{ModelConfig}
use kv_cache_tier_persistenc.Tensor.{Tensor, Dtype, KvData, layer}
use kv_cache_tier_persistenc.Serialization.Raw.{
  Codec, Header, itemsize, header_of, tensor_bytes, read_tensor, read_layers, payload_of,
  is_missing, field, dtype_of, dtype_enum_of,
}

-- Every row has `width` bytes, every head `tokens` rows.
abbrev pub AllRows : ℕ → List (List ℕ) → Type 0
AllRows width [] = Unit
AllRows width (row ∷ rows) = (length row ≡ width) × AllRows width rows

abbrev pub AllHeads : ℕ → ℕ → List (List (List ℕ)) → Type 0
AllHeads tokens width [] = Unit
AllHeads tokens width (rows ∷ heads) =
    (length rows ≡ tokens) × AllRows width rows × AllHeads tokens width heads

-- The cells are those of an array of the tensor's shape and type.
abbrev pub IsShaped : Tensor → Type 0
IsShaped t = (length t.cells ≡ t.heads) × AllHeads t.tokens (t.head_dim * itemsize t.dtype) t.cells

-- An array has as many bytes as its shape and type say, and reading its bytes with them gives it
-- back; a CRC32 has 32 bits.
pub record IsCodec (z : Codec) : Type 0 where
  pub size :
      (t : Tensor)
      → IsShaped t
      → length (z.tobytes t) ≡ t.heads * t.tokens * t.head_dim * itemsize t.dtype
  pub reads :
      (t : Tensor)
      → IsShaped t
      → z.frombuffer t.dtype t.heads t.tokens t.head_dim (z.tobytes t) ≡ ok t
  pub crc : (b : Bytes) → z.crc32 b < 4294967296

-- The tensor is an array with the shape and the type of the configuration.
pub record HasShape (c : ModelConfig) (tokens : ℕ) (t : Tensor) : Type 0 where
  pub shaped : IsShaped t
  pub dtype : t.dtype ≡ dtype_of (dtype_enum_of c)
  pub heads : t.heads ≡ c.num_heads
  pub token_count : t.tokens ≡ tokens
  pub head_dim : t.head_dim ≡ c.head_dim

-- The layers stand in order from `i` on, each with arrays of the configuration's shape and type.
abbrev pub IsDense : ModelConfig → ℕ → ℕ → KvData → Type 0
IsDense c tokens i [] = Unit
IsDense c tokens i ((j, (k, v)) ∷ d) =
    (j ≡ i) × HasShape c tokens k × HasShape c tokens v × IsDense c tokens (suc i) d

-- The entries of `d` are those that `kv` has under their layers.
abbrev Found : KvData → KvData → Type 0
Found kv [] = Unit
Found kv ((j, p) ∷ d) = (layer kv j ≡ some p) × Found kv d

Found-cons :
    (c : ModelConfig) (tokens i j : ℕ) (p : Tensor × Tensor) (kv d : KvData)
    → j < i
    → IsDense c tokens i d
    → Found kv d
    → Found ((j, p) ∷ kv) d
unfolding layer
Found-cons c tokens i j p kv [] lt h f = tt
Found-cons c tokens i j p kv ((l, (k, v)) ∷ d) lt h f =
    (ground (arith, h.0, f.0), Found-cons c tokens (suc i) j p kv d (omega (arith, lt)) h.3 f.1)

pub Found-self :
    (c : ModelConfig) (tokens i : ℕ) (kv : KvData) → IsDense c tokens i kv → Found kv kv
unfolding layer
Found-self c tokens i [] h = tt
Found-self c tokens i ((j, (k, v)) ∷ d) h = (
  ground arith,
  Found-cons c tokens (suc i) j (k, v) d d (omega (arith, h.0)) h.3
      (Found-self c tokens (suc i) d h.3),
)

module _ (z : Codec) (laws : IsCodec z) (c : ModelConfig) (tokens : ℕ) where
  pub is_missing-Found :
      (kv d : KvData) (i : ℕ)
      → IsDense c tokens i d
      → Found kv d
      → is_missing kv i (length d) ≡ false
  unfolding is_missing
  is_missing-Found kv [] i h f = refl
  is_missing-Found kv ((j, (k, v)) ∷ d) i h f =
      ground (arith, h.0, f.0, is_missing-Found kv d (suc i) h.3 f.1)

  abbrev pub bytes_of : KvData → Bytes
  bytes_of [] = []
  bytes_of ((j, (k, v)) ∷ d) = z.tobytes k ++ (z.tobytes v ++ bytes_of d)

  pub payload_of-Found :
      (kv d : KvData) (i : ℕ)
      → IsDense c tokens i d
      → Found kv d
      → payload_of z kv i (length d) ≡ ok (bytes_of d)
  unfolding payload_of
  payload_of-Found kv [] i h f = refl
  payload_of-Found kv ((j, (k, v)) ∷ d) i h f =
      ground (arith, h.0, f.0, payload_of-Found kv d (suc i) h.3 f.1)

  module _ (payload : Bytes) where
    abbrev h : Header
    h = header_of z c tokens payload

    size_of : (t : Tensor) → HasShape c tokens t → length (z.tobytes t) ≡ tensor_bytes h
    size_of t s = laws.size t s.shaped ∙ rw (s.dtype, s.heads, s.token_count, s.head_dim) refl

    reads_at :
        (t : Tensor) (d : Dtype) (heads n head_dim : ℕ)
        → t.dtype ≡ d
        → t.heads ≡ heads
        → t.tokens ≡ n
        → t.head_dim ≡ head_dim
        → IsShaped t
        → z.frombuffer d heads n head_dim (z.tobytes t) ≡ ok t
    reads_at t d heads n head_dim ed eh en ew s =
        rw (sym ed, sym eh, sym en, sym ew) (laws.reads t s)

    reads_of : (t : Tensor) → HasShape c tokens t → read_tensor z h (z.tobytes t) ≡ ok t
    reads_of t s =
        reads_at t (dtype_of (dtype_enum_of c)) c.num_heads tokens c.head_dim s.dtype s.heads
          s.token_count s.head_dim s.shaped

    pub length-bytes_of :
        (d : KvData) (i : ℕ)
        → IsDense c tokens i d
        → length (bytes_of d) ≡ length d * (tensor_bytes h + tensor_bytes h)
    length-bytes_of [] i dense = omega arith
    length-bytes_of ((j, (k, v)) ∷ d) i dense =
        length-append (z.tobytes k) (z.tobytes v ++ bytes_of d)
        ∙ omega (
          arith,
          length-append (z.tobytes v) (bytes_of d),
          size_of k dense.1,
          size_of v dense.2,
          length-bytes_of d (suc i) dense.3,
          add-mul 1 (length d) (tensor_bytes h + tensor_bytes h),
        )

    read_layers-suc :
        (content : Bytes) (offset i n : ℕ) (k v : Tensor) (rest : KvData)
        → read_tensor z h (field content offset (tensor_bytes h)) ≡ ok k
        → read_tensor z h (field content (offset + tensor_bytes h) (tensor_bytes h)) ≡ ok v
        → read_layers z h content (offset + tensor_bytes h + tensor_bytes h) (suc i) n ≡ ok rest
        → read_layers z h content offset i (suc n) ≡ ok ((i, (k, v)) ∷ rest)
    unfolding read_layers
    read_layers-suc content offset i n k v rest ek ev er = rw (ek, ev, er) refl

    pub read_layers-bytes_of :
        (content : Bytes) (d : KvData) (offset i : ℕ)
        → IsDense c tokens i d
        → drop offset content ≡ bytes_of d
        → read_layers z h content offset i (length d) ≡ ok d
    read_layers-bytes_of content [] offset i dense e = unfold read_layers in refl
    read_layers-bytes_of content ((j, (k, v)) ∷ d) offset i dense e =
        read_layers-suc content offset i (length d) k v d
          (ap (read_tensor z h) key ∙ reads_of k dense.1)
          (ap (read_tensor z h) value ∙ reads_of v dense.2)
          (read_layers-bytes_of content d (offset + size + size) (suc i) dense.3 after_value)
        ∙ ap (λ l. ok ((l, (k, v)) ∷ d)) (sym dense.0)
      where
        size : ℕ
        size = tensor_bytes h

        key : field content offset size ≡ z.tobytes k
        key = ap (take size) e ∙ take-append size (z.tobytes k) _ (size_of k dense.1)

        after_key : drop (offset + size) content ≡ z.tobytes v ++ bytes_of d
        after_key =
            sym (drop-sum offset size (offset + size) content refl)
            ∙ ap (drop size) e
            ∙ drop-append size (z.tobytes k) _ (size_of k dense.1)

        value : field content (offset + size) size ≡ z.tobytes v
        value = ap (take size) after_key ∙ take-append size (z.tobytes v) _ (size_of v dense.2)

        after_value : drop (offset + size + size) content ≡ bytes_of d
        after_value =
            sym (drop-sum (offset + size) size (offset + size + size) content refl)
            ∙ ap (drop size) after_key
            ∙ drop-append size (z.tobytes v) _ (size_of v dense.2)

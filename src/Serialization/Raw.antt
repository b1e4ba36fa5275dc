-- ===== src/Serialization/Raw.antt =====
-- serialization/raw_binary_serde.py: `RawBinarySerializer`. `struct.pack` and `unpack` are written
-- out for the little-endian fields that the formats have; `zlib.crc32` and the bytes of numpy's arrays
-- are parameters (`Codec`).
pub mod Framing
pub mod Payload
pub mod RoundTrip
use kv_cache_tier_persistenc.Prelude.{
  ℕ, zero, suc, ◌+◌, ◌*◌, ◌/◌, ◌%◌, Bool, true, false, ◌&&◌, ◌||◌, not, Option, none, some, List,
  [], ◌∷◌, ◌++◌, str_eq, ltb, ◌==◌, if◌then◌else◌, length, take, drop,
}
use kv_cache_tier_persistenc.Result.{
  Result, ok, raise, value_error, key_error, checksum_error, struct_error, ◌>>=◌,
}
use kv_cache_tier_persistenc.Dict.Bytes.{Bytes}
use kv_cache_tier_persistenc.Config.{ModelConfig}
use kv_cache_tier_persistenc.Tensor.{Tensor, Dtype, float16, float32, KvData, layer}

-- `zlib.crc32(b)`, `t.tobytes()` and `np.frombuffer(b, dtype).reshape(heads, tokens, head_dim).copy()`
pub record Codec : Type 0 where
  pub crc32 : Bytes → ℕ
  pub tobytes : Tensor → Bytes
  pub frombuffer : Dtype → ℕ → ℕ → ℕ → Bytes → Result Tensor

abbrev pub itemsize : Dtype → ℕ
itemsize float16 = 2
itemsize float32 = 4

-- The fields of the header after the magic and the version.
pub record Header : Type 0 where
  pub num_layers : ℕ
  pub num_heads : ℕ
  pub head_dim : ℕ
  pub token_count : ℕ
  pub dtype_enum : ℕ
  pub crc : ℕ

abbrev pub magic : Bytes
magic = 75 ∷ 86 ∷ 67 ∷ 65 ∷ 67 ∷ 72 ∷ 69 ∷ 0 ∷ []

-- formats `H` and `I`
abbrev pub u16 : ℕ → Bytes
u16 n = n % 256 ∷ n / 256 ∷ []

abbrev pub u32 : ℕ → Bytes
u32 n = n % 256 ∷ n / 256 % 256 ∷ n / 65536 % 256 ∷ n / 16777216 ∷ []

abbrev pub from_le : Bytes → ℕ
from_le [] = 0
from_le (b ∷ bs) = b + 256 * from_le bs

abbrev pub zeros : ℕ → Bytes
zeros zero = []
zeros (suc n) = 0 ∷ zeros n

abbrev pub header_bytes : Header → Bytes
header_bytes h =
    magic
    ++ u16 2
    ++ u16 h.num_layers
    ++ u16 h.num_heads
    ++ u16 h.head_dim
    ++ u32 h.token_count
    ++ (h.dtype_enum ∷ u32 h.crc)
    ++ zeros 39

-- `struct.pack(HEADER_FORMAT_V2, …)`, which raises where a field is too large
unfoldable pub pack : Header → Result Bytes
pack h =
    if ltb h.num_layers 65536
      && ltb h.num_heads 65536
      && ltb h.head_dim 65536
      && ltb h.token_count 4294967296
      && ltb h.dtype_enum 256
      && ltb h.crc 4294967296
    then ok (header_bytes h)
    else raise struct_error

-- `data[start:start + n]`
abbrev pub field : Bytes → ℕ → ℕ → Bytes
field content start n = take n (drop start content)

abbrev pub bytes_eq : Bytes → Bytes → Bool
bytes_eq [] [] = true
bytes_eq (b ∷ bs) (c ∷ cs) = b == c && bytes_eq bs cs
bytes_eq _ _ = false

abbrev pub version_of : Bytes → ℕ
version_of content = from_le (field content 8 2)

-- `struct.unpack`; version 1 has padding where version 2 has the checksum
abbrev pub unpack : Bytes → Header
unpack content = record {
  num_layers = from_le (field content 10 2);
  num_heads = from_le (field content 12 2);
  head_dim = from_le (field content 14 2);
  token_count = from_le (field content 16 4);
  dtype_enum = from_le (field content 20 1);
  crc = from_le (field content 21 4);
}

abbrev pub dtype_enum_of : ModelConfig → ℕ
dtype_enum_of c = if str_eq c.dtype "float16" || str_eq c.dtype "fp16" then 0 else 1

abbrev pub dtype_of : ℕ → Dtype
dtype_of n = if n == 0 then float16 else float32

-- the configuration that `deserialize` returns; `block_size` keeps its default
abbrev pub config_of : Header → ModelConfig
config_of h = record {
  num_layers = h.num_layers;
  num_heads = h.num_heads;
  head_dim = h.head_dim;
  block_size = 16;
  dtype = if h.dtype_enum == 0 then "float16" else "float32";
}

-- Whether layer `i` or one of the `n` from it on is missing.
unfoldable pub is_missing : KvData → ℕ → ℕ → Bool
is_missing kv i zero = false
is_missing kv i (suc n) = elim (layer kv i) [ none ↦ true | some p ↦ is_missing kv (suc i) n ]

abbrev pub tensor_bytes : Header → ℕ
tensor_bytes h = h.num_heads * h.token_count * h.head_dim * itemsize (dtype_of h.dtype_enum)

module _ (z : Codec) where
  -- the parts of the payload, from layer `i` on
  unfoldable pub payload_of : KvData → ℕ → ℕ → Result Bytes
  payload_of kv i zero = ok []
  payload_of kv i (suc n) = elim (layer kv i) [
    | none ↦ raise key_error
    | some (k, v) ↦ payload_of kv (suc i) n >>= λ rest. ok (z.tobytes k ++ (z.tobytes v ++ rest))
  ]

  abbrev pub header_of : ModelConfig → ℕ → Bytes → Header
  header_of c tokens payload = record {
    num_layers = c.num_layers;
    num_heads = c.num_heads;
    head_dim = c.head_dim;
    token_count = tokens;
    dtype_enum = dtype_enum_of c;
    crc = z.crc32 payload;
  }

  unfoldable pub encode : KvData → ModelConfig → Tensor × Tensor → Result Bytes
  unfolding payload_of pack
  encode kv c (k, v) = payload_of kv 0 c.num_layers >>= λ payload.
      pack (header_of c k.tokens payload) >>= λ header. ok (header ++ payload)

  unfoldable pub serialize : KvData → ModelConfig → Result Bytes
  unfolding is_missing encode
  serialize [] c = raise value_error
  serialize (e ∷ d) c =
      if is_missing (e ∷ d) 0 c.num_layers
      then raise value_error
      else elim (layer (e ∷ d) 0) [ none ↦ raise key_error | some kv ↦ encode (e ∷ d) c kv ]

  abbrev pub read_tensor : Header → Bytes → Result Tensor
  read_tensor h b = z.frombuffer (dtype_of h.dtype_enum) h.num_heads h.token_count h.head_dim b

  -- the loop over the layers, from layer `i` on
  unfoldable pub read_layers : Header → Bytes → ℕ → ℕ → ℕ → Result KvData
  read_layers h content offset i zero = ok []
  read_layers h content offset i (suc n) =
      let size = tensor_bytes h in
      read_tensor h (field content offset size) >>= λ k.
      read_tensor h (field content (offset + size) size) >>= λ v.
      read_layers h content (offset + size + size) (suc i) n >>= λ rest. ok ((i, (k, v)) ∷ rest)

  unfoldable pub read_body : Header → Bytes → Result (KvData × ModelConfig)
  unfolding read_layers
  read_body h content =
      if ltb (length content) (64 + 2 * h.num_layers * tensor_bytes h)
      then raise value_error
      else read_layers h content 64 0 h.num_layers >>= λ kv. ok (kv, config_of h)

  unfoldable pub deserialize : Bytes → Result (KvData × ModelConfig)
  unfolding read_body
  deserialize content =
      if ltb (length content) 64
      then raise value_error
      else if not (bytes_eq (field content 0 8) magic)
      then raise value_error
      else if version_of content == 2
      then (if z.crc32 (drop 64 content) == (unpack content).crc
          then read_body (unpack content) content
          else raise checksum_error)
      else if version_of content == 1
      then read_body (unpack content) content
      else raise value_error

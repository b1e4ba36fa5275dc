-- ===== src/Serialization/Raw/Framing.antt =====
-- serialization/raw_binary_serde.py: the header, written and read before any payload.
use kv_cache_tier_persistenc.Prelude.{
  ℕ, ◌+◌, ◌<◌, ◌≡◌, refl, true, ◌++◌, arith, length, drop, length-append,
}
use kv_cache_tier_persistenc.Result.{ok}
use kv_cache_tier_persistenc.Dict.Bytes.{Bytes}
use kv_cache_tier_persistenc.Serialization.Raw.{
  Header, magic, header_bytes, pack, u16, u32, from_le, field, bytes_eq, version_of, unpack,
}

from_le-u16 : (n : ℕ) → from_le (u16 n) ≡ n
from_le-u16 n = omega arith

from_le-u32 : (n : ℕ) → from_le (u32 n) ≡ n
from_le-u32 n = omega arith

-- Each field fits its format.
pub record IsEncodable (h : Header) : Type 0 where
  pub num_layers : h.num_layers < 65536
  pub num_heads : h.num_heads < 65536
  pub head_dim : h.head_dim < 65536
  pub token_count : h.token_count < 4294967296
  pub dtype_enum : h.dtype_enum < 256
  pub crc : h.crc < 4294967296

pub pack-IsEncodable : (h : Header) → IsEncodable h → pack h ≡ ok (header_bytes h)
unfolding pack
pack-IsEncodable h e =
    ground (arith, e.num_layers, e.num_heads, e.head_dim, e.token_count, e.dtype_enum, e.crc)

module _ (h : Header) (payload : Bytes) where
  pub unpack-header_bytes : unpack (header_bytes h ++ payload) ≡ h
  unpack-header_bytes = ground (
    arith,
    from_le-u16 h.num_layers,
    from_le-u16 h.num_heads,
    from_le-u16 h.head_dim,
    from_le-u32 h.token_count,
    from_le-u32 h.crc,
  )

  pub drop-header_bytes : drop 64 (header_bytes h ++ payload) ≡ payload
  drop-header_bytes = refl

  pub version-header_bytes : version_of (header_bytes h ++ payload) ≡ 2
  version-header_bytes = refl

  pub magic-header_bytes : bytes_eq (field (header_bytes h ++ payload) 0 8) magic ≡ true
  magic-header_bytes = refl

  pub length-header_bytes : length (header_bytes h ++ payload) ≡ 64 + length payload
  length-header_bytes = length-append (header_bytes h) payload

-- ===== src/Serialization.antt =====
-- serialization/: the raw binary format, safetensors and the compressing wrapper.
pub mod Raw
pub mod Compressed
pub mod Safetensors

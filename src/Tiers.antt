-- ===== src/Tiers.antt =====
-- tiers/: the storage classes, and dynamic dispatch over them.
pub mod Hot
pub mod Warm
pub mod Cold
pub mod Storage
pub mod Minio

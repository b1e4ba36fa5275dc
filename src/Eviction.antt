-- ===== src/Eviction.antt =====
-- eviction/: the interface of a policy, the scan that the policies share, and the policies.
pub mod Policy
pub mod Argmin
pub mod MinKey
pub mod Lru
pub mod Ttl
pub mod Features
pub mod Scores
pub mod ValueDensity
pub mod SpaceTime
pub mod Predictive
pub mod Oracle
pub mod Sound
pub mod Factory

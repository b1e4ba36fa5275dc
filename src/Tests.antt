-- ===== src/Tests.antt =====
-- Runs of the development on concrete data, and one instance of each statement that has hypotheses.
pub mod Data
mod Cascade
mod Policies
pub mod Storage
mod Arrays
mod Serving
pub mod Codecs
mod Wire
mod Time
mod Values
pub mod Oracles
mod Indexes
mod Learning
pub mod Measures
mod Setup

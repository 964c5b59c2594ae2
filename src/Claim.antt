-- ===== src/Claim.antt =====
-- The package gobds/claim.
pub mod Model
pub mod Dimension
pub mod Status
pub mod Snapshot
pub mod Metrics
pub mod Service
pub mod Factory

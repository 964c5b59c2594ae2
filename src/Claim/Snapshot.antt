-- ===== src/Claim/Snapshot.antt =====
-- claim/snapshot.go: the data of a snapshot and the queries on it. The children hold the validation
-- of claims, the spatial index, the construction, and the proofs.
pub mod Validate
pub mod Cells
pub mod Index
pub mod Build
pub mod Contents
pub mod Coordinates
pub mod Candidates

-- ===== src/Session.antt =====
-- The package gobds/session: one player's connection, and the handlers of its packets.
pub mod Data
pub mod Dimension
pub mod State
pub mod Afk
pub mod Corrective
pub mod Claims
pub mod Positions
pub mod Handlers
pub mod Packets
pub mod Reading

-- ===== src/Session/Handlers.antt =====
-- The handlers of packets (session/handler_*.go). A handler takes the session and the packet, and
-- gives the session that it leaves and what becomes of the packet.
pub mod Handling
pub mod AuthInput
pub mod Inventory
pub mod ItemStack
pub mod SubChunk
pub mod Actors
pub mod Player
pub mod AvailableCommands
pub mod Text
pub mod CommandRequest
pub mod ModalForm

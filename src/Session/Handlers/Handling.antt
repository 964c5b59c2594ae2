-- ===== src/Session/Handlers/Handling.antt =====
-- What a handler of a packet gives back (session/handler_*.go).
use gobds.Base.{String}

-- The packet is passed on, or cancelled; or the handler returns a malformedPacketError or another
-- error, or panics.
pub data Handled : Type 0 where
  forwarded cancelled : Handled
  malformed : String → Handled
  failed : String → Handled
  panicked : Handled

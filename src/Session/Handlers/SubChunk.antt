-- ===== src/Session/Handlers/SubChunk.antt =====
-- session/handler_sub_chunk.go: the server's sub-chunks on their way to the client. Those outside the
-- border are left out, and in the lowest section of a column deny blocks stand where a claim keeps the
-- player out. The children hold the packet, the third-party codec of chunks and the proofs.
pub mod Packet
pub mod Columns
pub mod Entries
pub mod Editing
pub mod Alignment
pub mod Rendering
pub mod Drawing
pub mod Outcome
pub mod Redrawing
use gobds.Base.{ℕ, List, Bool, not, Option, none, some, if◌then◌else◌}
use gobds.Base.Int.{ℤ}
use gobds.Clock.{Time, Duration}
use gobds.Claim.Metrics
use gobds.Session.Data.{set_dimension}
use gobds.Session.State.{Platform, Session, metric}
use gobds.Session.Corrective.{dimension_range_by_id}
use gobds.Session.Handlers.SubChunk.Packet.{Codec, SubChunkPacket, SubChunkEntry}
use gobds.Session.Handlers.SubChunk.Entries.{resolve_claim_sub_chunk_context, filter_entries}

-- The entries that were filtered, or all of them after a panic.
abbrev pub entries_or : SubChunkPacket → Option (List SubChunkEntry) → SubChunkPacket
entries_or packet none = packet
entries_or packet (some entries) = record packet { entries = entries }

-- The session once the packet is counted and its dimension is noted.
abbrev pub arrived : SubChunkPacket → Session → Session
arrived packet s =
    let counted = metric Metrics.packet s in
    record counted { player = set_dimension packet.dimension counted.player }

-- Handle, with the time that it takes. Its result goes on to the client.
unfoldable pub handle_sub_chunk :
    Codec → Platform → Bool → Time → Duration → SubChunkPacket → Session → Session × SubChunkPacket
handle_sub_chunk codec platform from_server now elapsed packet s =
    let moved = arrived packet s in
    let (claims, context) = resolve_claim_sub_chunk_context now packet.dimension moved in
    let range = dimension_range_by_id platform packet.dimension s.dimensions in
    let (claims', entries) =
      filter_entries codec platform moved packet context range packet.entries claims in
    if not from_server
    then (metric (Metrics.record_latency elapsed) (metric Metrics.packet s), packet)
    else (
      metric (Metrics.record_latency elapsed) (record moved { claims = claims' }),
      entries_or packet entries,
    )

-- ===== src/Tests/SubChunks.antt =====
-- Tests of the handler of sub-chunks (session/handler_sub_chunk.go).
use gobds.Base.{
  ℕ, ◌≡◌, refl, Bool, true, false, not, ◌&&◌, Option, none, some, List, [], ◌∷◌, ◌==◌, nat_eq,
  ℕ_discrete, string_eq, if◌then◌else◌, arith,
}
use gobds.Base.Int.{pos, ℤ-discrete, ◌+ℤ◌}
use gobds.Area.{wrap32}
use gobds.Session.Handlers.SubChunk.Packet.{
  Codec, Decoding, fails, decoded, SetsOne, SubChunkEntry, SubChunkPacket,
}
use gobds.Session.Handlers.SubChunk.Entries.{chunk_pos}
use gobds.Session.Handlers.SubChunk.{arrived, handle_sub_chunk}
use gobds.Session.Handlers.SubChunk.Redrawing.{IsRedrawn, handle_sub_chunk-Redrawn}
use gobds.Tests.Claims.{home_snapshot-IsSound}
use gobds.Tests.Sessions.{platform, session}

-- Sections as functions; the encoding is the block at a corner of the claim.
abbrev Blocks : Type 0
Blocks = ℕ → ℕ → ℕ → ℕ → ℕ

abbrev decode_blocks : List ℕ → Decoding Blocks
decode_blocks [] = fails
decode_blocks (n ∷ rest) = decoded (λ x y z layer. 0) n rest

abbrev pub codec : Codec
codec = record {
  Section = Blocks;
  decode = λ range bytes. decode_blocks bytes;
  encode = λ range index c. index ∷ c 3 0 4 0 ∷ c 3 1 4 0 ∷ [];
  section_count = λ range. 16;
  set_block = λ x y z layer id c x' y' z' layer'.
      if x' == x && y' == y && z' == z && layer' == layer then id else c x' y' z' layer';
  block_at = λ x y z layer c. c x y z layer;
}

codec-SetsOne : SetsOne codec
codec-SetsOne x y z layer id c x' y' z' layer' = refl

-- The lowest section of the chunk of the claim, and one beyond the border.
abbrev ground_floor : SubChunkEntry
ground_floor = record {
  offset_x = pos 0;
  offset_y = pos 0;
  offset_z = pos 0;
  result = pos 1;
  raw_payload = some (0 ∷ 5 ∷ []);
}

abbrev far_away : SubChunkEntry
far_away = record ground_floor { offset_x = pos 100 }

abbrev chunk_packet : SubChunkPacket
chunk_packet = record {
  cache_enabled = false;
  dimension = pos 0;
  position = record { x = pos 0; y = pos 0; z = pos 0 };
  entries = far_away ∷ ground_floor ∷ [];
}

handle_sub_chunk-Redrawn_example :
    IsRedrawn codec platform 6
      (pos 1)
      chunk_packet
      session
      (handle_sub_chunk codec platform true 6 (pos 1) chunk_packet session).1
unfolding chunk_pos wrap32 ◌+ℤ◌
handle_sub_chunk-Redrawn_example =
    handle_sub_chunk-Redrawn codec platform 6 (pos 1) chunk_packet session codec-SetsOne
      home_snapshot-IsSound (omega arith)

floor_is_denied :
    (handle_sub_chunk codec platform true 6 (pos 1) chunk_packet session).1.entries
    ≡ record ground_floor { raw_payload = some (0 ∷ 777 ∷ 0 ∷ 5 ∷ []) } ∷ []
unfolding handle_sub_chunk gobds.Session.Handlers.SubChunk.Entries.filter_entries
    gobds.Session.Handlers.SubChunk.Entries.filter_sub_chunk_entry gobds.Area.chunk_inside
    gobds.Area.shift_left4 wrap32 chunk_pos ◌+ℤ◌ gobds.Area.plus15 ℤ-discrete ℕ_discrete
    gobds.Session.Handlers.SubChunk.Entries.resolve_claim_sub_chunk_context
    gobds.Claim.Factory.query gobds.Claim.Snapshot.Build.supported gobds.Claim.Snapshot.Build.age
    gobds.Clock.is_zero gobds.Clock.sub_time gobds.Session.Corrective.dimension_range_by_id
    gobds.Base.Dict.lookup string_eq gobds.Claim.Snapshot.Build.candidates
    gobds.Claim.Snapshot.Cells.CellKey-discrete gobds.Claim.Snapshot.Cells.cell_for
    gobds.Float.float_max gobds.Float.float_min gobds.Float.floor_cell gobds.Float.int32_of
    gobds.Geometry.between gobds.Geometry.claim_contains gobds.Policy.claim_action_permitted
    gobds.Policy.claim_owner_or_trusted gobds.Policy.handle_claim_action_render
    gobds.Policy.permitted_by_action gobds.Policy.renders gobds.Policy.valid_claim
    gobds.Session.Claims.match_claims gobds.Session.Claims.single_claim_at
    gobds.Session.Data.set_dimension gobds.Session.Dimension.claim_dimension_from_int
    gobds.Session.Handlers.SubChunk.Columns.column_position
    gobds.Session.Handlers.SubChunk.Columns.denies
    gobds.Session.Handlers.SubChunk.Columns.deny_column
    gobds.Session.Handlers.SubChunk.Columns.deny_row
    gobds.Session.Handlers.SubChunk.Columns.deny_rows
    gobds.Session.Handlers.SubChunk.Columns.render_denied
    gobds.Session.Handlers.SubChunk.Entries.apply_claim_deny_blocks
    gobds.Session.Handlers.SubChunk.Entries.deny_block_runtime_id
    gobds.Session.Positions.block_pos_to_vec3 gobds.Session.Positions.float32_of_int32
    gobds.Session.Positions.round24
floor_is_denied = refl

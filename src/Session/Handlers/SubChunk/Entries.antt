-- ===== src/Session/Handlers/SubChunk/Entries.antt =====
-- resolveClaimSubChunkContext, filterSubChunkEntry and applyClaimDenyBlocks of
-- session/handler_sub_chunk.go. Of a session they change only the metrics of its claim factory, so that
-- is what they pass on; an entry is `none` where they panic.
use gobds.Base.{
  ℕ, String, nat_eq, Bool, true, false, not, ◌&&◌, Option, none, some, List, [], ◌∷◌, ◌++◌, length,
  ◌==◌, leb, if◌then◌else◌,
}
use gobds.Base.Int.{ℤ, ◌+ℤ◌, floor_div, int_eq}
use gobds.Clock.{Time}
use gobds.Area.{Area2D, ChunkPos, chunk_inside, shift_left4, wrap32}
use gobds.Claim.Model.{PlayerClaim}
use gobds.Claim.Status.{
  QueryStatus, ready, missing, stale, unsupported, unknown_dimension, invalid, overlap,
  refresh_failed,
}
use gobds.Claim.Metrics
use gobds.Claim.Snapshot.Build.{Snapshot, candidates}
use gobds.Claim.Factory.{Factory, query}
use gobds.Policy.{ClaimActor}
use gobds.Session.Dimension.{claim_dimension_from_int}
use gobds.Session.State.{Platform, Session, metric_of}
use gobds.Session.Positions.{float32_of_int32}
use gobds.Session.Handlers.SubChunk.Packet.{
  Codec, Decoding, panics, fails, decoded, SubChunkEntry, SubChunkPacket,
}
use gobds.Session.Handlers.SubChunk.Columns.{Edit, deny_rows}

-- What resolveClaimSubChunkContext returns.
pub record Context : Type 0 where
  pub snapshot : Option Snapshot
  pub status : QueryStatus
  pub dimension : Option String

-- It has no snapshot; the status 0 is QueryReady.
abbrev pub no_context : Context
no_context = record { snapshot = none; status = ready; dimension = none }

abbrev pub is_ready : QueryStatus → Bool
is_ready ready = true
is_ready missing = false
is_ready stale = false
is_ready unsupported = false
is_ready unknown_dimension = false
is_ready invalid = false
is_ready overlap = false
is_ready refresh_failed = false

abbrev is_some : {A : Type 0} → Option A → Bool
is_some none = false
is_some (some a) = true

-- s.claimDenyRendering && s.claimFactory != nil
abbrev pub renders_claims : Session → Bool
renders_claims s = s.claim_deny_rendering && is_some s.claims

abbrev note_status : QueryStatus → Option Factory → Option Factory
note_status status claims =
    if is_ready status then claims else metric_of (Metrics.reason status) claims

abbrev note_dimension : Option String → Option Factory → Option Factory
note_dimension none claims = metric_of (Metrics.reason unknown_dimension) claims
note_dimension (some d) claims = claims

abbrev pub context_of :
    Option String → Factory → Option Snapshot × QueryStatus → Option Factory × Context
context_of dimension f (snapshot, status) = (
  note_dimension dimension (note_status status (some f)),
  record { snapshot = snapshot; status = status; dimension = dimension },
)

unfoldable pub resolve_claim_sub_chunk_context : Time → ℤ → Session → Option Factory × Context
resolve_claim_sub_chunk_context now dimension s = elim s.claims [
  | none ↦ (none, no_context)
  | some f ↦
      if not s.claim_deny_rendering
      then (some f, no_context)
      else context_of (claim_dimension_from_int dimension s.dimensions) f (query f now)
]

-- denyBlockRuntimeID of session/util.go
unfoldable pub deny_block_runtime_id : Platform → Bool → ℕ
deny_block_runtime_id platform hashed =
    if hashed then platform.hashed_deny_runtime_id else platform.deny_runtime_id

unfoldable pub chunk_pos : SubChunkPacket → SubChunkEntry → ChunkPos
chunk_pos packet entry = record {
  x = wrap32 (packet.position.x +ℤ entry.offset_x);
  z = wrap32 (packet.position.z +ℤ entry.offset_z);
}

abbrev pub outside_chunk : Option Area2D → ChunkPos → Bool
outside_chunk none chunk = false
outside_chunk (some a) chunk = not (chunk_inside a chunk)

module _ (codec : Codec) where
  -- What the columns of a decoded sub-chunk are changed to.
  abbrev pub edited :
      ChunkPos
      → List PlayerClaim
      → ℕ
      → ClaimActor
      → codec.Section
      → Option Factory
      → Edit codec.Section
  edited chunk found deny_id actor section claims =
      deny_rows codec chunk found deny_id actor 16 0
        (record { section = section; modified = false; claims = claims })

  abbrev pub rewritten :
      ℤ × ℤ → ℕ → List ℕ → SubChunkEntry → Edit codec.Section → Option Factory × SubChunkEntry
  rewritten range index rest entry e = if not e.modified then (e.claims, entry) else (
    metric_of Metrics.subchunk_modified e.claims,
    record entry { raw_payload = some (codec.encode range index e.section ++ rest) },
  )

  abbrev pub with_decoded :
      ChunkPos
      → ℤ × ℤ
      → List PlayerClaim
      → ℕ
      → ClaimActor
      → SubChunkEntry
      → Option Factory
      → Decoding codec.Section
      → Option Factory × Option SubChunkEntry
  with_decoded chunk range found deny_id actor entry claims panics = (claims, none)
  with_decoded chunk range found deny_id actor entry claims fails =
      (metric_of Metrics.subchunk_failed claims, some entry)
  with_decoded chunk range found deny_id actor entry claims (decoded section index rest) =
      let counted = metric_of Metrics.subchunk_decoded claims in
      let (claims', entry') =
        rewritten range index rest entry (edited chunk found deny_id actor section counted) in
      if leb (codec.section_count range) index
      then (metric_of Metrics.subchunk_failed counted, some entry)
      else (claims', some entry')

  abbrev pub with_payload :
      ChunkPos
      → ℤ × ℤ
      → List PlayerClaim
      → ℕ
      → ClaimActor
      → SubChunkEntry
      → Option Factory
      → Option (List ℕ)
      → Option Factory × Option SubChunkEntry
  with_payload chunk range found deny_id actor entry claims none = (claims, some entry)
  with_payload chunk range found deny_id actor entry claims (some bytes) =
      with_decoded chunk range found deny_id actor entry claims (codec.decode range bytes)

  unfoldable pub apply_claim_deny_blocks :
      SubChunkPacket
      → SubChunkEntry
      → ChunkPos
      → ℤ × ℤ
      → List PlayerClaim
      → ℕ
      → ClaimActor
      → Option Factory
      → Option Factory × Option SubChunkEntry
  apply_claim_deny_blocks packet entry chunk range found deny_id actor claims =
      if not (wrap32 (packet.position.y +ℤ entry.offset_y) == wrap32 (floor_div range.0 16))
      then (claims, some entry)
      else if length found == 0
      then (claims, some entry)
      else with_payload chunk range found deny_id actor entry claims entry.raw_payload

  module _ (platform : Platform) (s : Session) (packet : SubChunkPacket) (context : Context) where
    abbrev pub actor_of : ClaimActor
    actor_of = record { xuid = s.xuid; operator = s.player.operator }

    -- The claims that are offered at the corner of the chunk.
    abbrev pub found_at : String → ChunkPos → List PlayerClaim
    found_at dimension chunk =
        candidates platform.wild context.snapshot dimension (float32_of_int32 (shift_left4 chunk.x))
          (float32_of_int32 (shift_left4 chunk.z))

    abbrev pub in_dimension :
        SubChunkEntry
        → Option (ℤ × ℤ)
        → Option String
        → Option Factory
        → Option Factory × Option SubChunkEntry
    in_dimension entry none dimension claims = (claims, some entry)
    in_dimension entry (some range) none claims = (claims, some entry)
    in_dimension entry (some range) (some dimension) claims =
        let found = found_at dimension (chunk_pos packet entry) in
        apply_claim_deny_blocks packet entry (chunk_pos packet entry) range found
          (deny_block_runtime_id platform s.hashed_ids) actor_of
          (metric_of (Metrics.add_candidates (length found)) claims)

    -- Whether it comes to the claims of the place at all.
    abbrev pub is_open : SubChunkEntry → Bool
    is_open entry =
        renders_claims s
        && entry.result == platform.sub_chunk_result_success
        && is_ready context.status
        && not packet.cache_enabled

    abbrev pub listed :
        Option Factory × Option SubChunkEntry → Option Factory × Option (List SubChunkEntry)
    listed (claims, none) = (claims, none)
    listed (claims, some entry) = (claims, some (entry ∷ []))

    unfoldable pub filter_sub_chunk_entry :
        Option (ℤ × ℤ)
        → SubChunkEntry
        → Option Factory
        → Option Factory × Option (List SubChunkEntry)
    filter_sub_chunk_entry range entry claims =
        if outside_chunk s.border (chunk_pos packet entry)
        then (claims, some [])
        else if not (is_open entry)
        then (claims, some (entry ∷ []))
        else listed (in_dimension entry range context.dimension claims)

    abbrev pub and_then :
        (Option Factory → Option Factory × Option (List SubChunkEntry))
        → Option Factory × Option (List SubChunkEntry)
        → Option Factory × Option (List SubChunkEntry)
    and_then later (claims, none) = (claims, none)
    and_then later (claims, some kept) =
        let (claims', rest) = later claims in
        (claims', elim rest [ none ↦ none | some more ↦ some (kept ++ more) ])

    -- The loop of Handle.
    unfoldable pub filter_entries :
        Option (ℤ × ℤ)
        → List SubChunkEntry
        → Option Factory
        → Option Factory × Option (List SubChunkEntry)
    filter_entries range [] claims = (claims, some [])
    filter_entries range (entry ∷ rest) claims =
        and_then (filter_entries range rest) (filter_sub_chunk_entry range entry claims)

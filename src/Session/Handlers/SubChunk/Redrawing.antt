-- ===== src/Session/Handlers/SubChunk/Redrawing.antt =====
-- What the client sees of a packet of sub-chunks (session/handler_sub_chunk.go).
use gobds.Base.{
  ◌≡◌, refl, sym, subst, String, true, not, Option, none, some, List, All, ◌⊎◌, inl, inr, if_both,
}
use gobds.Base.Int.{ℤ}
use gobds.Clock.{Time, Duration}
use gobds.Claim.Metrics
use gobds.Claim.Status.{QueryStatus}
use gobds.Claim.Snapshot.Build.{Snapshot}
use gobds.Claim.Factory.{Factory, query}
use gobds.Claim.Factory.Freshness.{query_snapshot}
use gobds.Claim.Factory.Refresh.{IsSound, OnSnapshot}
use gobds.Session.State.{Platform, Session, metric_of}
use gobds.Session.Corrective.{dimension_range_by_id}
use gobds.Session.Dimension.{claim_dimension_from_int}
use gobds.Session.Handlers.SubChunk.Packet.{Codec, SetsOne, SubChunkEntry, SubChunkPacket}
use gobds.Session.Handlers.SubChunk.Entries.{Context, context_of, resolve_claim_sub_chunk_context}
use gobds.Session.Handlers.SubChunk.Outcome.{
  Any, BreaksDecoder, Redrawn, IsNear, Result, filter_entries-Result,
}
use gobds.Session.Handlers.SubChunk.{arrived, entries_or, handle_sub_chunk}

-- The claims of the session's factory, if there is one, are sound.
abbrev pub HasSoundClaims : Platform → Option Factory → Type 0
HasSoundClaims platform none = Unit {0}
HasSoundClaims platform (some f) = OnSnapshot (IsSound platform.wild) f.snapshot

metric_of-HasSoundClaims :
    (platform : Platform) (g : Metrics.Metrics → Metrics.Metrics) (claims : Option Factory)
    → HasSoundClaims platform claims
    → HasSoundClaims platform (metric_of g claims)
metric_of-HasSoundClaims platform g none h = tt
metric_of-HasSoundClaims platform g (some f) h = h

context_of-IsSound :
    (platform : Platform) (dimension : Option String) (f : Factory)
    (q : Option Snapshot × QueryStatus)
    → OnSnapshot (IsSound platform.wild) q.0
    → OnSnapshot (IsSound platform.wild) (context_of dimension f q).1.snapshot
context_of-IsSound platform dimension f (snapshot, status) h = h

resolve-IsSound :
    (platform : Platform) (now : Time) (dimension : ℤ) (s : Session)
    → HasSoundClaims platform s.claims
    → OnSnapshot
        (IsSound platform.wild)
        (resolve_claim_sub_chunk_context now dimension s).1.snapshot
unfolding resolve_claim_sub_chunk_context
resolve-IsSound platform now dimension s h = by_claims s.claims h
  where
    by_claims :
        (o : Option Factory)
        → HasSoundClaims platform o
        → OnSnapshot
            (IsSound platform.wild)
            (resolve_claim_sub_chunk_context now dimension (record s { claims = o })).1.snapshot
    by_claims none h = tt
    by_claims (some f) h =
        if_both (λ (r : Option Factory × Context). OnSnapshot (IsSound platform.wild) r.1.snapshot)
          (not s.claim_deny_rendering) tt
          (context_of-IsSound platform (claim_dimension_from_int dimension s.dimensions) f
            (query f now)
            (subst (OnSnapshot (IsSound platform.wild)) (sym (query_snapshot f now)) h))

module _ (codec : Codec) (platform : Platform) (now : Time) (elapsed : Duration)
    (packet : SubChunkPacket) (s : Session) where
  abbrev pub context_at : Context
  context_at = (resolve_claim_sub_chunk_context now packet.dimension (arrived packet s)).1

  abbrev pub range_at : Option (ℤ × ℤ)
  range_at = dimension_range_by_id platform packet.dimension s.dimensions

  -- An entry of the packet is decoded, and the decoder panics.
  abbrev pub SomeBreaks : Type 0
  SomeBreaks =
      Any (BreaksDecoder codec platform (arrived packet s) packet context_at range_at)
        packet.entries

  -- Either some entry breaks the decoder, and the packet stays as it is, or none does, and the entries
  -- are redrawn.
  abbrev pub IsRedrawn : SubChunkPacket → Type 0
  IsRedrawn packet' =
      (SomeBreaks × (packet' ≡ packet))
      ⊎ ((¬ SomeBreaks)
          × (out : List SubChunkEntry) × (packet' ≡ record packet { entries = out })
          × Redrawn codec platform (arrived packet s) packet context_at range_at packet.entries out)

  by_result :
      (o : Option (List SubChunkEntry))
      → Result codec platform (arrived packet s) packet context_at range_at packet.entries o
      → IsRedrawn (entries_or packet o)
  by_result none h = inl (h, refl)
  by_result (some out) (whole, h) = inr (whole, out, refl, h)

  -- What becomes of a packet of sub-chunks from the server, of places less than 2^24 blocks from the
  -- origin. Call an entry open if it lies within the border, rendering is on, the server marks it a
  -- success and does not use the client's cache, the snapshot of the claims is fresh, the dimension is
  -- known, and it is the lowest section of its column. The packet is passed on as it is if the bytes of
  -- some open entry, where the index of the snapshot offers claims, make the decoder panic. Else the
  -- entries outside the border are left out, and the others stay in their order. Call a column of
  -- blocks closed if it lies in one claim alone, of all the claims of the snapshot, and the policy of
  -- that claim keeps the player out. An entry changes only if it is open, its bytes decode and it has a
  -- closed column; then exactly the floor blocks of its closed columns become deny blocks, and the
  -- bytes after the section are kept. This takes a snapshot that a factory obtained from its service,
  -- and a library of chunks that sets one block at a time.
  pub handle_sub_chunk-Redrawn :
      SetsOne codec
      → HasSoundClaims platform s.claims
      → All (IsNear codec platform (arrived packet s) packet context_at) packet.entries
      → IsRedrawn (handle_sub_chunk codec platform true now elapsed packet s).1
  unfolding handle_sub_chunk
  handle_sub_chunk-Redrawn sets_one sound near = by_result _ (
      filter_entries-Result codec platform (arrived packet s) packet context_at sets_one
        (resolve-IsSound platform now packet.dimension (arrived packet s)
          (metric_of-HasSoundClaims platform Metrics.packet s.claims sound))
        range_at packet.entries _ near)

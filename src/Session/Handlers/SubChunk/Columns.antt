-- ===== src/Session/Handlers/SubChunk/Columns.antt =====
-- The loops of applyClaimDenyBlocks over the columns of a sub-chunk (session/handler_sub_chunk.go).
use gobds.Base.{ℕ, zero, suc, ◌+◌, Bool, true, false, not, Option, none, some, List, if◌then◌else◌}
use gobds.Base.Int.{pos, ◌+ℤ◌}
use gobds.Area.{ChunkPos, shift_left4, wrap32}
use gobds.Claim.Model.{Vector3, PlayerClaim}
use gobds.Claim.Status.{overlap}
use gobds.Claim.Metrics
use gobds.Claim.Factory.{Factory}
use gobds.Policy.{render, vec3, ClaimActor, claim_action_permitted}
use gobds.Session.Claims.{single_claim_at, action_index}
use gobds.Session.State.{metric_of}
use gobds.Session.Positions.{block_pos_to_vec3}
use gobds.Session.Handlers.SubChunk.Packet.{Codec}

-- The place of a column, at height 0.
unfoldable pub column_position : ChunkPos → ℕ → ℕ → Vector3
column_position chunk x z = block_pos_to_vec3 (record {
  x = wrap32 (shift_left4 chunk.x +ℤ pos x);
  y = pos 0;
  z = wrap32 (shift_left4 chunk.z +ℤ pos z);
})

-- Whether the player may not build there, from what singleClaimAt finds.
unfoldable pub render_denied : ClaimActor → Vector3 → Option PlayerClaim × Bool → Bool
render_denied actor position (matched, true) = false
render_denied actor position (none, false) = false
render_denied actor position (some c, false) =
    not (claim_action_permitted c actor render (vec3 position))

-- What the loops change: the sub-chunk, `modified`, and the metrics of the claim factory.
pub record Edit (C : Type 0) : Type 0 where
  pub section : C
  pub modified : Bool
  pub claims : Option Factory

abbrev note_overlap : Bool → Option Factory → Option Factory
note_overlap true claims = metric_of (Metrics.reason overlap) claims
note_overlap false claims = claims

module _ (codec : Codec) (chunk : ChunkPos) (claims : List PlayerClaim) (deny_id : ℕ)
    (actor : ClaimActor) where
  unfoldable pub denies : ℕ → ℕ → Bool
  denies x z =
      let position = column_position chunk x z in
      render_denied actor position (single_claim_at claims position.x position.z)

  -- The body of the inner loop.
  unfoldable pub deny_column : ℕ → ℕ → Edit codec.Section → Edit codec.Section
  deny_column x z e =
      let position = column_position chunk x z in
      let noted = note_overlap (single_claim_at claims position.x position.z).1 e.claims in
      let counted = metric_of (Metrics.action (action_index render) (not (denies x z))) noted in
      if not (denies x z) then record e { claims = counted } else record {
        section = codec.set_block x 0 z 0 deny_id e.section;
        modified = true;
        claims = counted;
      }

  -- The inner loop, with the rounds that are left.
  unfoldable pub deny_row : ℕ → ℕ → ℕ → Edit codec.Section → Edit codec.Section
  deny_row z zero x e = e
  deny_row z (suc n) x e = deny_row z n (x + 1) (deny_column x z e)

  -- The outer loop.
  unfoldable pub deny_rows : ℕ → ℕ → Edit codec.Section → Edit codec.Section
  deny_rows zero z e = e
  deny_rows (suc n) z e = deny_rows n (z + 1) (deny_row z 16 0 e)

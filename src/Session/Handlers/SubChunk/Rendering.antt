-- ===== src/Session/Handlers/SubChunk/Rendering.antt =====
-- Where deny blocks are drawn (session/handler_sub_chunk.go), by a search through all the claims of
-- the snapshot.
use gobds.Base.{
  ℕ, ◌<◌, ◌≡◌, refl, ap, ◌∙◌, String, Bool, false, ◌&&◌, Option, none, some, List, keep, ◌==◌,
  nat_eq, string_eq,
}
use gobds.Base.Int.{ℤ, int_eq}
use gobds.Float.{Float}
use gobds.Area.{ChunkPos, shift_left4}
use gobds.Geometry.{claim_contains}
use gobds.Claim.Model.{PlayerClaim}
use gobds.Claim.Snapshot.Build.{Snapshot, candidates}
use gobds.Claim.Factory.Refresh.{IsSound, OnSnapshot}
use gobds.Claim.Snapshot.Index.{entered}
use gobds.Policy.{ClaimActor}
use gobds.Session.Claims.{single_claim_at}
use gobds.Session.Claims.Matching.{match_of, single_claim_at-match_of}
use gobds.Session.Positions.{float32_of_int32}
use gobds.Session.Handlers.SubChunk.Packet.{Codec}
use gobds.Session.Handlers.SubChunk.Columns.{column_position, render_denied, denies}
use gobds.Session.Handlers.SubChunk.Alignment.{InReach, corner-column}

-- The claims of a dimension that contain a column.
abbrev pub claims_over : Snapshot → String → ChunkPos → ℕ → ℕ → List PlayerClaim
claims_over s dimension chunk x z =
    let p = column_position chunk x z in
    keep (λ c. c.location.dimension == dimension && claim_contains c p.x p.z) s.claims

-- A column in which exactly one claim lies, whose policy keeps the player from building there.
abbrev pub is_closed : Snapshot → String → ClaimActor → ChunkPos → ℕ → ℕ → Bool
is_closed s dimension actor chunk x z =
    render_denied actor (column_position chunk x z) (match_of (claims_over s dimension chunk x z))

candidates_corner :
    (wild : Float → ℤ) (s : Snapshot) (dimension : String) (chunk : ChunkPos) (x z : ℕ)
    → InReach chunk.x
    → InReach chunk.z
    → x < 16
    → z < 16
    → let p = column_position chunk x z in
      candidates wild
        (some s)
        dimension
        (float32_of_int32 (shift_left4 chunk.x))
        (float32_of_int32 (shift_left4 chunk.z))
      ≡ candidates wild (some s) dimension p.x p.z
unfolding candidates
candidates_corner wild s dimension chunk x z near_x near_z hx hz =
    ap (λ k. entered dimension k s.index) (corner-column wild chunk x z near_x near_z hx hz)

-- The code asks the index once, at the corner of the chunk, and denies the columns that are closed.
pub denies-is_closed :
    (codec : Codec) (wild : Float → ℤ) (s : Snapshot) (dimension : String) (chunk : ChunkPos)
    (deny_id : ℕ) (actor : ClaimActor) (x z : ℕ)
    → IsSound wild s
    → InReach chunk.x
    → InReach chunk.z
    → x < 16
    → z < 16
    → denies codec chunk
        (candidates wild
          (some s)
          dimension
          (float32_of_int32 (shift_left4 chunk.x))
          (float32_of_int32 (shift_left4 chunk.z)))
        deny_id
        actor
        x
        z
      ≡ is_closed s dimension actor chunk x z
unfolding denies
denies-is_closed codec wild s dimension chunk deny_id actor x z sound near_x near_z hx hz =
    let p = column_position chunk x z in
    ap (render_denied actor p) (
      ap (λ cs. single_claim_at cs p.x p.z)
        (candidates_corner wild s dimension chunk x z near_x near_z hx hz)
      ∙ single_claim_at-match_of _ p.x p.z
      ∙ ap match_of (sound.indexed dimension p.x p.z))

-- No column is closed where there is no snapshot.
abbrev pub is_closed_in : Option Snapshot → String → ClaimActor → ChunkPos → ℕ → ℕ → Bool
is_closed_in none dimension actor chunk x z = false
is_closed_in (some s) dimension actor chunk x z = is_closed s dimension actor chunk x z

pub denies-is_closed_in :
    (codec : Codec) (wild : Float → ℤ) (s : Option Snapshot) (dimension : String) (chunk : ChunkPos)
    (deny_id : ℕ) (actor : ClaimActor) (x z : ℕ)
    → OnSnapshot (IsSound wild) s
    → InReach chunk.x
    → InReach chunk.z
    → x < 16
    → z < 16
    → denies codec chunk
        (candidates wild s dimension
          (float32_of_int32 (shift_left4 chunk.x))
          (float32_of_int32 (shift_left4 chunk.z)))
        deny_id
        actor
        x
        z
      ≡ is_closed_in s dimension actor chunk x z
unfolding denies candidates single_claim_at render_denied gobds.Session.Claims.match_claims
denies-is_closed_in codec wild none dimension chunk deny_id actor x z sound near_x near_z hx hz =
    refl
denies-is_closed_in codec wild (some s) dimension chunk deny_id actor x z sound near_x near_z hx
      hz =
    denies-is_closed codec wild s dimension chunk deny_id actor x z sound near_x near_z hx hz

-- ===== src/Session/Corrective.antt =====
-- The limits on corrections of session/session.go and session/handler_player_auth_input.go: at most
-- one for a chunk in each interval.
pub mod Spacing
use gobds.Base.{
  ℕ, ◌+◌, ◌-◌, ◌*◌, ◌^◌, ◌≡◌, String, Bool, true, false, not, ◌||◌, Option, none, some, List, [],
  ◌∷◌, Eq, ◌==◌, if◌then◌else◌,
}
use gobds.Base.Int.{ℤ, pos, negsuc, int_eq, ℤ-discrete, ltb_ℤ, leb_ℤ, ◌+ℤ◌, ◌-ℤ◌, floor_div}
use gobds.Base.Dict.{Dict, lookup, insert}
use gobds.Clock.{Time, Duration, sub_time, second}
use gobds.Float.{Float, nan, neg_inf, pos_inf, fin, int32_of}
use gobds.Area.{ChunkPos}
use gobds.Claim.Model.{Vector3}
use gobds.Claim.Metrics
use gobds.Session.Dimension.{DimensionDefinition}
use gobds.Session.State.{
  Platform, CorrectiveKey, LevelChunk, Written, message, level_chunk, Session, write, metric,
}

pub CorrectiveKey-discrete : Discrete CorrectiveKey
CorrectiveKey-discrete = hlevel ℤ-discrete

instance abbrev pub corrective_key_eq : Eq CorrectiveKey
corrective_key_eq = record { dec = CorrectiveKey-discrete }

abbrev pub key_of : Session → ChunkPos → CorrectiveKey
key_of s chunk = record { dimension = s.player.dimension; x = chunk.x; z = chunk.z }

-- `last[key]`, which is the zero time where there is none.
abbrev pub last_correction : CorrectiveKey → Dict CorrectiveKey Time → Time
last_correction key m = elim (lookup key m) [ none ↦ 0 | some t ↦ t ]

unfoldable pub allow_corrective : ChunkPos → Duration → Time → Session → Session × Bool
allow_corrective chunk interval now s =
    if ltb_ℤ (sub_time now (last_correction (key_of s chunk) s.corrective)) interval
    then (s, false)
    else (record s { corrective = insert (key_of s chunk) now s.corrective }, true)

-- math.Floor(float64(v)) of a float32 in units of 2^-149, in units of 1.
abbrev floor_of : Float → Float
floor_of nan = nan
floor_of neg_inf = neg_inf
floor_of pos_inf = pos_inf
floor_of (fin a) = fin (floor_div a (2 ^ 149))

-- The chunk of a position: int32(math.Floor(v)) >> 4.
unfoldable pub chunk_of_position : Platform → Vector3 → ChunkPos
chunk_of_position platform v = record {
  x = floor_div (int32_of platform.wild (floor_of v.x)) 16;
  z = floor_div (int32_of platform.wild (floor_of v.z)) 16;
}

abbrev pub say_if : String → Session × Bool → Session
say_if text (s, true) = metric (Metrics.correction true) (write (message text) s)
say_if text (s, false) = metric (Metrics.correction false) s

-- claimMessage(position, message)
unfoldable pub claim_message : Platform → Vector3 → String → Time → Session → Session
claim_message platform position text now s =
    say_if text (allow_corrective (chunk_of_position platform position) (pos second) now s)

-- dimensionRangeByID of session/util.go: the first definition of the dimension, or the standard one.
unfoldable pub dimension_range_by_id : Platform → ℤ → List DimensionDefinition → Option (ℤ × ℤ)
dimension_range_by_id platform id [] = platform.standard_range id
dimension_range_by_id platform id (d ∷ ds) =
    let rest = dimension_range_by_id platform id ds in
    if d.dimension_type == id then some (d.low, d.high) else rest

abbrev chunk_in_range : ChunkPos → ℤ → Option (ℤ × ℤ) → Option LevelChunk
chunk_in_range chunk dimension none = none
chunk_in_range chunk dimension (some (low, high)) =
    let height = high -ℤ low in
    let sub_chunks = floor_div (height +ℤ pos 15) 16 in
    if leb_ℤ height (pos 0)
    then none
    else if ltb_ℤ (pos (2 ^ 16 - 1)) sub_chunks
    then none
    else some (record {
      position = chunk;
      dimension = dimension;
      sub_chunk_count = 0;
      sub_chunk_limit = sub_chunks;
    })

unfoldable pub corrective_level_chunk :
    Platform → ChunkPos → ℤ → List DimensionDefinition → Option LevelChunk
corrective_level_chunk platform chunk dimension definitions =
    chunk_in_range chunk dimension (dimension_range_by_id platform dimension definitions)

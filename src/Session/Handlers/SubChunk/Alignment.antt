-- ===== src/Session/Handlers/SubChunk/Alignment.antt =====
-- The cell of a chunk's corner in the index of claims, and those of its columns
-- (session/handler_sub_chunk.go, claim/snapshot.go).
use gobds.Base.{ℕ, ◌-◌, ◌^◌, ◌<◌, ◌≡◌, ap, sym, ◌∙◌, nat_eq, arith}
use gobds.Base.Int.{ℤ, pos, negsuc, ◌+ℤ◌, floor_div, pos_part, neg_part, ◌≤ℤ◌}
use gobds.Float.{Float, whole, floor_cell, int32_of}
use gobds.Area.{ChunkPos, shift_left4, wrap32}
use gobds.Claim.Snapshot.Cells.{cell_for}
use gobds.Session.Positions.{round24, float32_of_int32, block_pos_to_vec3}
use gobds.Session.Handlers.SubChunk.Columns.{column_position}

-- A chunk coordinate whose blocks are whole numbers that float32 holds: less than 2^24 from the origin.
abbrev pub InReach : ℤ → Type 0
InReach v = (v ≤ℤ pos (2 ^ 20 - 1)) × (negsuc (2 ^ 20 - 2) ≤ℤ v)

float32_of_int32_small :
    (v : ℤ) → pos_part v < 2 ^ 24 → neg_part v < 2 ^ 24 → float32_of_int32 v ≡ whole v
unfolding float32_of_int32 round24
float32_of_int32_small (pos n) h k = ground arith
float32_of_int32_small (negsuc n) h k = ground arith

whole_cell :
    (wild : Float → ℤ) (v : ℤ)
    → pos_part v < 2 ^ 24
    → neg_part v < 2 ^ 24
    → int32_of wild (floor_cell (whole v)) ≡ floor_div v 16
unfolding int32_of floor_cell
whole_cell wild (pos n) h k = ground arith
whole_cell wild (negsuc n) h k = ground arith

column_value :
    (c : ℤ) (x : ℕ)
    → InReach c
    → x < 16
    → let v = wrap32 (shift_left4 c +ℤ pos x) in
      (pos_part v < 2 ^ 24) × (neg_part v < 2 ^ 24) × (floor_div v 16 ≡ c)
unfolding wrap32 shift_left4 ◌+ℤ◌
column_value (pos n) x h k = ground arith
column_value (negsuc n) x h k = ground arith

corner_value :
    (c : ℤ)
    → InReach c
    → let v = shift_left4 c in (pos_part v < 2 ^ 24) × (neg_part v < 2 ^ 24) × (floor_div v 16 ≡ c)
unfolding wrap32 shift_left4
corner_value (pos n) h = ground arith
corner_value (negsuc n) h = ground arith

cell_of_value :
    (wild : Float → ℤ) (v c : ℤ)
    → (pos_part v < 2 ^ 24) × (neg_part v < 2 ^ 24) × (floor_div v 16 ≡ c)
    → int32_of wild (floor_cell (float32_of_int32 v)) ≡ c
cell_of_value wild v c (h, k, e) =
    ap (λ w. int32_of wild (floor_cell w)) (float32_of_int32_small v h k)
    ∙ whole_cell wild v h k
    ∙ e

-- The claims at the corner of a chunk are those at each of its columns.
pub corner-column :
    (wild : Float → ℤ) (chunk : ChunkPos) (x z : ℕ)
    → InReach chunk.x
    → InReach chunk.z
    → x < 16
    → z < 16
    → let p = column_position chunk x z in
      cell_for wild
        (float32_of_int32 (shift_left4 chunk.x))
        (float32_of_int32 (shift_left4 chunk.z))
      ≡ cell_for wild p.x p.z
unfolding cell_for column_position block_pos_to_vec3
corner-column wild chunk x z near_x near_z hx hz =
    let e = cell_of_value wild _ chunk.x (corner_value chunk.x near_x) in
    let f = cell_of_value wild _ chunk.z (corner_value chunk.z near_z) in
    let g = cell_of_value wild _ chunk.x (column_value chunk.x x near_x hx) in
    let h = cell_of_value wild _ chunk.z (column_value chunk.z z near_z hz) in
    λ i. record { x = (e ∙ sym g) i; z = (f ∙ sym h) i }

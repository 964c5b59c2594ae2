-- ===== src/Area.antt =====
-- util/area/area2d.go: the world border.
pub mod Chunks
use gobds.Base.{◌≡◌, Bool, ◌&&◌, ℕ, zero, suc, ◌+◌, ◌-◌, ◌*◌, ◌%◌, ◌^◌, ltb, if◌then◌else◌}
use gobds.Base.Int.{ℤ, pos, negsuc, ◌+ℤ◌, ◌-ℤ◌, leb_ℤ, ltb_ℤ, floor_div}

pub record Area2D : Type 0 where
  pub min_x : ℤ
  pub min_z : ℤ
  pub max_x : ℤ
  pub max_z : ℤ

unfoldable pub new_area2d : ℤ → ℤ → ℤ → ℤ → Area2D
new_area2d min_x min_z max_x max_z = record {
  min_x = min_x;
  min_z = min_z;
  max_x = max_x;
  max_z = max_z;
}

unfoldable pub position_inside : Area2D → ℤ → ℤ → Bool
position_inside a x z = ltb_ℤ a.min_x x && ltb_ℤ x a.max_x && ltb_ℤ a.min_z z && ltb_ℤ z a.max_z

-- A chunk's place, in chunks.
pub record ChunkPos : Type 0 where
  pub x : ℤ
  pub z : ℤ

-- The int32 that wraps round to a whole number's place, from -2^31 to 2^31 - 1.
abbrev signed32 : ℕ → ℤ
signed32 n = if ltb n (2 ^ 31) then pos n else negsuc (2 ^ 32 - 1 - n)

unfoldable pub wrap32 : ℤ → ℤ
wrap32 (pos n) = signed32 (n % 2 ^ 32)
wrap32 (negsuc n) = signed32 (2 ^ 32 - 1 - n % 2 ^ 32)

abbrev times16 : ℤ → ℤ
times16 (pos n) = pos (n * 16)
times16 (negsuc n) = negsuc (n * 16 + 15)

-- v << 4 on int32
unfoldable pub shift_left4 : ℤ → ℤ
shift_left4 v = wrap32 (times16 v)

-- a + 15 on int32
unfoldable pub plus15 : ℤ → ℤ
plus15 a = wrap32 (a +ℤ pos 15)

unfoldable pub chunk_inside : Area2D → ChunkPos → Bool
chunk_inside a chunk =
    let min_x = shift_left4 chunk.x in
    let min_z = shift_left4 chunk.z in
    leb_ℤ min_x a.max_x
    && leb_ℤ a.min_x (plus15 min_x)
    && leb_ℤ min_z a.max_z
    && leb_ℤ a.min_z (plus15 min_z)

-- The chunk of a block: pos >> 4, which rounds down.
unfoldable pub chunk_of : ℤ → ℤ → ChunkPos
chunk_of x z = record { x = floor_div x 16; z = floor_div z 16 }

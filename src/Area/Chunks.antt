-- ===== src/Area/Chunks.antt =====
-- The border of util/area/area2d.go on whole chunks against the border on blocks.
use gobds.Base.{
  ◌≡◌, ◌↔◌, Bool, true, ◌&&◌, ◌+◌, ◌-◌, ◌*◌, ◌^◌, arith, and_left, and_right, and_intro, subst,
}
use gobds.Base.Int.{ℤ, pos, negsuc, ◌+ℤ◌, ◌≤ℤ◌, max_ℤ, floor_div, leb_ℤ, +ℤ_parts}
use gobds.Area.{
  Area2D, ChunkPos, position_inside, chunk_inside, wrap32, shift_left4, plus15, chunk_of,
}

-- A chunk whose blocks all have int32 coordinates: from -2^27 to 2^27 - 1.
abbrev pub IsChunkCoordinate : ℤ → Type 0
IsChunkCoordinate v = (negsuc (2 ^ 27 - 1) ≤ℤ v) × (v ≤ℤ pos (2 ^ 27 - 1))

abbrev first_block : ℤ → ℤ
first_block (pos n) = pos (n * 16)
first_block (negsuc n) = negsuc (n * 16 + 15)

shift_left4-exact : (v : ℤ) → IsChunkCoordinate v → shift_left4 v ≡ first_block v
unfolding shift_left4 wrap32
shift_left4-exact (pos n) h = ground arith
shift_left4-exact (negsuc n) h = ground arith

last_block-exact : (v : ℤ) → IsChunkCoordinate v → plus15 (first_block v) ≡ first_block v +ℤ pos 15
unfolding plus15 wrap32 ◌+ℤ◌
last_block-exact (pos n) h = ground arith
last_block-exact (negsuc n) h = ground arith

-- The test of chunk_inside in one coordinate: the 16 blocks from a first one meet a closed range.
abbrev meets : ℤ → ℤ → ℤ → Bool
meets low high first = leb_ℤ first high && leb_ℤ low (first +ℤ pos 15)

chunk_inside-meets :
    (a : Area2D) (c : ChunkPos)
    → IsChunkCoordinate c.x
    → IsChunkCoordinate c.z
    → chunk_inside a c
      ≡ (meets a.min_x a.max_x (first_block c.x) && meets a.min_z a.max_z (first_block c.z))
unfolding chunk_inside
chunk_inside-meets a c h k =
    rw
      (
        shift_left4-exact c.x h,
        shift_left4-exact c.z k,
        last_block-exact c.x h,
        last_block-exact c.z k,
      )
      (ground arith)

abbrev pub IsInt32 : ℤ → Type 0
IsInt32 v = (negsuc (2 ^ 31 - 1) ≤ℤ v) × (v ≤ℤ pos (2 ^ 31 - 1))

floor_div-IsChunkCoordinate : (v : ℤ) → IsInt32 v → IsChunkCoordinate (floor_div v 16)
floor_div-IsChunkCoordinate (pos n) h = omega arith
floor_div-IsChunkCoordinate (negsuc n) h = omega arith

-- A block lies among the 16 of its chunk.
in_own_chunk :
    (v : ℤ) → (first_block (floor_div v 16) ≤ℤ v) × (v ≤ℤ first_block (floor_div v 16) +ℤ pos 15)
unfolding ◌+ℤ◌
in_own_chunk (pos n) = ground arith
in_own_chunk (negsuc n) = ground arith

-- The chunk of every block inside the border is inside it, for blocks with int32 coordinates.
pub chunk_inside-chunk_of :
    (a : Area2D) (x z : ℤ)
    → IsInt32 x
    → IsInt32 z
    → position_inside a x z ≡ true
    → chunk_inside a (chunk_of x z) ≡ true
unfolding position_inside chunk_of
chunk_inside-chunk_of a x z hx hz inside =
    rw
      (chunk_inside-meets a (chunk_of x z) (floor_div-IsChunkCoordinate x hx)
        (floor_div-IsChunkCoordinate z hz))
      (ground (arith, in_own_chunk x, in_own_chunk z))

-- A place that a chunk and the border share.
abbrev pub Shares : Area2D → ChunkPos → ℤ → ℤ → Type 0
Shares a c x z =
    (chunk_of x z ≡ c) × (a.min_x ≤ℤ x) × (x ≤ℤ a.max_x) × (a.min_z ≤ℤ z) × (z ≤ℤ a.max_z)

in_chunk :
    (v first : ℤ)
    → first_block first ≤ℤ v
    → v ≤ℤ first_block first +ℤ pos 15
    → floor_div v 16 ≡ first
unfolding ◌+ℤ◌
in_chunk (pos n) (pos m) h k = ground arith
in_chunk (pos n) (negsuc m) h k = absurd (ground arith)
in_chunk (negsuc n) (pos m) h k = absurd (ground arith)
in_chunk (negsuc n) (negsuc m) h k = ground arith

-- The first block of a chunk that lies in a range which the chunk meets.
shared_place :
    (low high c : ℤ)
    → low ≤ℤ high
    → meets low high (first_block c) ≡ true
    → (v : ℤ) × (floor_div v 16 ≡ c) × (low ≤ℤ v) × (v ≤ℤ high)
shared_place low high c le meets =
    let v = max_ℤ (first_block c) low in
    let bound = +ℤ_parts (first_block c) (pos 15) in
    (
      v,
      in_chunk v c (ground (arith, bound)) (ground (arith, bound)),
      ground (arith, bound),
      ground (arith, bound),
    )

meets-of-place :
    (low high v : ℤ) → low ≤ℤ v → v ≤ℤ high → meets low high (first_block (floor_div v 16)) ≡ true
meets-of-place low high v h k = ground (arith, in_own_chunk v)

module _ (a : Area2D) (c : ChunkPos) (hx : IsChunkCoordinate c.x) (hz : IsChunkCoordinate c.z)
    (ordered_x : a.min_x ≤ℤ a.max_x) (ordered_z : a.min_z ≤ℤ a.max_z) where
  Shares-of-inside : chunk_inside a c ≡ true → (x : ℤ) × (z : ℤ) × Shares a c x z
  unfolding chunk_of
  Shares-of-inside h =
      let m = rw (chunk_inside-meets a c hx hz) at h in
      let (x, ex, lx, ux) =
        shared_place a.min_x a.max_x c.x ordered_x
          (and_left _ (meets a.min_z a.max_z (first_block c.z)) m) in
      let (z, ez, lz, uz) =
        shared_place a.min_z a.max_z c.z ordered_z
          (and_right (meets a.min_x a.max_x (first_block c.x)) _ m) in
      (x, z, ((λ i. record { x = ex i; z = ez i }), lx, ux, lz, uz))

  inside-of-Shares : (x z : ℤ) → Shares a c x z → chunk_inside a c ≡ true
  unfolding chunk_of
  inside-of-Shares x z (e, lx, ux, lz, uz) = rw (chunk_inside-meets a c hx hz) (
      and_intro
        (subst (λ k. meets a.min_x a.max_x (first_block k.x) ≡ true) e
          (meets-of-place a.min_x a.max_x x lx ux))
        (subst (λ k. meets a.min_z a.max_z (first_block k.z) ≡ true) e
          (meets-of-place a.min_z a.max_z z lz uz)))

  -- A chunk is inside the border exactly when one of its blocks lies on or within the border's
  -- lines: for chunks whose blocks have int32 coordinates, and a border with its ends in order.
  pub chunk_inside_iff : (chunk_inside a c ≡ true) ↔ ((x : ℤ) × (z : ℤ) × Shares a c x z)
  chunk_inside_iff = (Shares-of-inside, λ h. inside-of-Shares h.0 h.1 h.2)

-- ===== src/Claim/Snapshot/Coordinates.antt =====
-- The cells of a claim and of a position in it, one coordinate at a time (claim/snapshot.go).
use gobds.Base.{
  ◌^◌, ◌≡◌, true, false, not, ◌&&◌, some, string_eq, and_left, and_right, and_intro, arith,
}
use gobds.Base.Int.{
  ℤ, pos, pos_part, ◌+ℤ◌, ◌-ℤ◌, ◌≤ℤ◌, leb_ℤ, +ℤ_parts, -ℤ_parts, floor_div, floor_div_mono,
}
use gobds.Float.{
  Float, nan, neg_inf, pos_inf, fin, float_le, float_min, float_max, floor_cell, int32_of, in_int32,
}
use gobds.Geometry.{between, claim_contains}
use gobds.Claim.Model.{PlayerClaim}
use gobds.Claim.Snapshot.Cells.{
  CellKey, cell_for, checked_cell_for, outside_int32, claim_cells, span,
}
use gobds.Claim.Snapshot.Contents.{reaches}

-- The rounds of a loop from one value up to another.
reaches-span :
    (low high v : ℤ) → low ≤ℤ v → v ≤ℤ high → reaches low (pos_part (span low high)) v ≡ true
unfolding span
reaches-span low high v h k = ground (
  arith,
  -ℤ_parts high low,
  +ℤ_parts (high -ℤ low) (pos 1),
  +ℤ_parts low (pos (pos_part (high -ℤ low +ℤ pos 1))),
)

-- One coordinate: a value between two others whose cells fit in int32 has a cell between theirs.
abbrev coordinate : (Float → ℤ) → Float → ℤ
coordinate wild v = int32_of wild (floor_cell v)

in_int32_between :
    (a b c : ℤ) → a ≤ℤ b → b ≤ℤ c → in_int32 a ≡ true → in_int32 c ≡ true → in_int32 b ≡ true
in_int32_between a b c h k l u = ground arith

leb_ℤ→≤ℤ : (a b : ℤ) → leb_ℤ a b ≡ true → a ≤ℤ b
leb_ℤ→≤ℤ a b h = ground arith

ordered_quotients :
    (wild : Float → ℤ) (a b c : ℤ)
    → a ≤ℤ b
    → b ≤ℤ c
    → not (in_int32 a) ≡ false
    → not (in_int32 c) ≡ false
    → (int32_of wild (fin a) ≤ℤ int32_of wild (fin b))
      × (int32_of wild (fin b) ≤ℤ int32_of wild (fin c))
unfolding int32_of
ordered_quotients wild a b c h k l u = ground (arith, in_int32_between a b c)

ordered_cells :
    (wild : Float → ℤ) (low v high : Float)
    → float_le low v ≡ true
    → float_le v high ≡ true
    → outside_int32 (floor_cell low) ≡ false
    → outside_int32 (floor_cell high) ≡ false
    → (coordinate wild low ≤ℤ coordinate wild v) × (coordinate wild v ≤ℤ coordinate wild high)
unfolding floor_cell int32_of
ordered_cells wild nan v high h k l u = cc
ordered_cells wild neg_inf v high h k l u = cc
ordered_cells wild pos_inf v high h k l u = cc
ordered_cells wild (fin a) nan high h k l u = cc
ordered_cells wild (fin a) neg_inf high h k l u = cc
ordered_cells wild (fin a) pos_inf nan h k l u = cc
ordered_cells wild (fin a) pos_inf neg_inf h k l u = cc
ordered_cells wild (fin a) pos_inf pos_inf h k l u = cc
ordered_cells wild (fin a) pos_inf (fin c) h k l u = cc
ordered_cells wild (fin a) (fin b) nan h k l u = cc
ordered_cells wild (fin a) (fin b) neg_inf h k l u = cc
ordered_cells wild (fin a) (fin b) pos_inf h k l u = cc
ordered_cells wild (fin a) (fin b) (fin c) h k l u =
    ordered_quotients wild (floor_div a (2 ^ 153)) (floor_div b (2 ^ 153)) (floor_div c (2 ^ 153))
      (floor_div_mono a b (2 ^ 153) (omega arith) (leb_ℤ→≤ℤ a b h))
      (floor_div_mono b c (2 ^ 153) (omega arith) (leb_ℤ→≤ℤ b c k)) l u

between_cells :
    (wild : Float → ℤ) (a b v : Float)
    → between a b v ≡ true
    → outside_int32 (floor_cell (float_min a b)) ≡ false
    → outside_int32 (floor_cell (float_max a b)) ≡ false
    → (coordinate wild (float_min a b) ≤ℤ coordinate wild v)
      × (coordinate wild v ≤ℤ coordinate wild (float_max a b))
unfolding between
between_cells wild a b v h l u =
    ordered_cells wild (float_min a b) v (float_max a b) (ground arith) (ground arith) l u

-- The cells of a claim and of a position, in one coordinate.
reaches-coordinate :
    (wild : Float → ℤ) (a b v : Float) (low high : ℤ)
    → outside_int32 (floor_cell (float_min a b)) ≡ false
    → outside_int32 (floor_cell (float_max a b)) ≡ false
    → low ≡ coordinate wild (float_min a b)
    → high ≡ coordinate wild (float_max a b)
    → between a b v ≡ true
    → reaches low (pos_part (span low high)) (coordinate wild v) ≡ true
reaches-coordinate wild a b v low high l u e f h =
    let t = between_cells wild a b v h l u in
    rw (e, f) (reaches-span _ _ (coordinate wild v) t.0 t.1)

abbrev Checked : (Float → ℤ) → Float → Float → CellKey → Type 0
Checked wild x z k =
    (outside_int32 (floor_cell x) ≡ false)
    × (outside_int32 (floor_cell z) ≡ false)
    × (k.x ≡ coordinate wild x)
    × (k.z ≡ coordinate wild z)

checked_cell_for-Checked :
    (wild : Float → ℤ) (x z : Float) (k : CellKey)
    → checked_cell_for wild x z ≡ some k
    → Checked wild x z k
unfolding checked_cell_for
checked_cell_for-Checked wild x z k h = ground arith

claim_cells-Checked :
    (wild : Float → ℤ) (c : PlayerClaim) (low high : CellKey)
    → claim_cells wild c ≡ some (low, high)
    → let l = c.location in
      Checked wild (float_min l.pos1.x l.pos2.x) (float_min l.pos1.z l.pos2.z) low
      × Checked wild (float_max l.pos1.x l.pos2.x) (float_max l.pos1.z l.pos2.z) high
unfolding claim_cells
claim_cells-Checked wild c low high h = (
  checked_cell_for-Checked wild _ _ low (ground arith),
  checked_cell_for-Checked wild _ _ high (ground arith),
)

-- A position inside a claim lies in a cell that the loops over the claim's cells reach.
pub reaches-cell_for :
    (wild : Float → ℤ) (c : PlayerClaim) (x z : Float) (low high : CellKey)
    → claim_cells wild c ≡ some (low, high)
    → claim_contains c x z ≡ true
    → let k = cell_for wild x z in
      (reaches low.x (pos_part (span low.x high.x)) k.x
        && reaches low.z (pos_part (span low.z high.z)) k.z)
      ≡ true
unfolding cell_for claim_contains
reaches-cell_for wild c x z low high e h =
    let (l, u) = claim_cells-Checked wild c low high e in
    let p = c.location.pos1 in
    let q = c.location.pos2 in
    and_intro
      (reaches-coordinate wild p.x q.x x low.x high.x l.0 u.0 l.2 u.2
        (and_left (between p.x q.x x) (between p.z q.z z) h))
      (reaches-coordinate wild p.z q.z z low.z high.z l.1 u.1 l.3 u.3
        (and_right (between p.x q.x x) (between p.z q.z z) h))

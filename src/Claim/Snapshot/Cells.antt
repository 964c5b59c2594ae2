-- ===== src/Claim/Snapshot/Cells.antt =====
-- cellKey, cellFor and checkedCellFor of claim/snapshot.go, and the loop of BuildSnapshot that
-- enters one claim into the cells of its dimension.
use gobds.Base.{
  ℕ, zero, suc, ◌+◌, ◌^◌, Bool, true, false, ◌||◌, not, Option, none, some, List, [], ◌∷◌, ◌++◌, Eq,
  if◌then◌else◌,
}
use gobds.Base.Int.{ℤ, pos, pos_part, ◌+ℤ◌, ◌-ℤ◌, ◌*ℤ◌, ltb_ℤ, ℤ-discrete}
use gobds.Base.Dict.{Dict, lookup, insert}
use gobds.Base.Result.{Result, ok, err}
use gobds.Float.{
  Float, nan, neg_inf, pos_inf, fin, float_min, float_max, floor_cell, int32_of, in_int32,
}
use gobds.Claim.Model.{PlayerClaim}
use gobds.Claim.Snapshot.Validate.{BuildError, bounds_exceed_index, too_many_cells}

pub record CellKey : Type 0 where
  pub x : ℤ
  pub z : ℤ

unfoldable pub CellKey-discrete : Discrete CellKey
CellKey-discrete = hlevel ℤ-discrete

instance abbrev pub cell_eq : Eq CellKey
cell_eq = record { dec = CellKey-discrete }

abbrev pub max_cells_per_claim : ℕ
max_cells_per_claim = 2 ^ 18

unfoldable pub cell_for : (Float → ℤ) → Float → Float → CellKey
cell_for wild x z = record { x = int32_of wild (floor_cell x); z = int32_of wild (floor_cell z) }

-- v < math.MinInt32 || v > math.MaxInt32
abbrev pub outside_int32 : Float → Bool
outside_int32 nan = false
outside_int32 neg_inf = true
outside_int32 pos_inf = true
outside_int32 (fin a) = not (in_int32 a)

unfoldable pub checked_cell_for : (Float → ℤ) → Float → Float → Option CellKey
checked_cell_for wild x z =
    if outside_int32 (floor_cell x) || outside_int32 (floor_cell z)
    then none
    else some (record { x = int32_of wild (floor_cell x); z = int32_of wild (floor_cell z) })

-- The cells of one dimension, with CellCount.
pub record Grid : Type 0 where
  pub cells : Dict CellKey (List PlayerClaim)
  pub count : ℕ

abbrev pub or_empty {ℓ} : {A : Type ℓ} → Option (List A) → List A
or_empty none = []
or_empty (some xs) = xs

abbrev pub cell_at : CellKey → Dict CellKey (List PlayerClaim) → List PlayerClaim
cell_at k m = or_empty (lookup k m)

abbrev bump_if_new : List PlayerClaim → ℕ → ℕ
bump_if_new [] n = n + 1
bump_if_new (c ∷ cs) n = n

-- The body of the inner loop.
unfoldable pub add_cell : PlayerClaim → CellKey → Grid → Grid
add_cell c key g =
    let old = cell_at key g.cells in
    record { cells = insert key (old ++ c ∷ []) g.cells; count = bump_if_new old g.count }

-- The inner loop, with the rounds that are left.
unfoldable pub add_column : PlayerClaim → ℤ → ℤ → ℕ → Grid → Grid
add_column c x z zero g = g
add_column c x z (suc n) g = add_column c x (z +ℤ pos 1) n (add_cell c (record { x = x; z = z }) g)

-- The outer loop.
unfoldable pub add_rectangle : PlayerClaim → ℤ → ℕ → ℤ → ℕ → Grid → Grid
add_rectangle c x zero z depth g = g
add_rectangle c x (suc n) z depth g =
    add_rectangle c (x +ℤ pos 1) n z depth (add_column c x z depth g)

-- The lowest and the highest cell of a claim.
unfoldable pub claim_cells : (Float → ℤ) → PlayerClaim → Option (CellKey × CellKey)
claim_cells wild c =
    let p = c.location.pos1 in
    let q = c.location.pos2 in
    elim (checked_cell_for wild (float_min p.x q.x) (float_min p.z q.z)) [
      | none ↦ none
      | some low ↦ elim (checked_cell_for wild (float_max p.x q.x) (float_max p.z q.z)) [
        | none ↦ none
        | some high ↦ some (low, high)
      ]
    ]

-- maxCell.x - minCell.x + 1, in int64, which holds it
unfoldable pub span : ℤ → ℤ → ℤ
span low high = high -ℤ low +ℤ pos 1

-- A span above the limit fails before the product is taken, so the product of the other two is that
-- of numbers up to 2^18; one that is negative makes the loop over it empty.
unfoldable pub too_large : ℤ → ℤ → Bool
too_large width depth =
    ltb_ℤ (pos max_cells_per_claim) width
    || ltb_ℤ (pos max_cells_per_claim) depth
    || ltb_ℤ (pos max_cells_per_claim) (width *ℤ depth)

unfoldable pub add_claim : (Float → ℤ) → PlayerClaim → Grid → Result BuildError Grid
add_claim wild c g = elim (claim_cells wild c) [
  | none ↦ err (bounds_exceed_index c.id)
  | some (low, high) ↦
      let width = span low.x high.x in
      let depth = span low.z high.z in
      if too_large width depth
      then err (too_many_cells c.id)
      else ok (add_rectangle c low.x (pos_part width) low.z (pos_part depth) g)
]

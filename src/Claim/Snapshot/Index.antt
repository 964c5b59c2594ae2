-- ===== src/Claim/Snapshot/Index.antt =====
-- The second loop of BuildSnapshot in claim/snapshot.go: every claim enters the cells of its
-- dimension.
use gobds.Base.{ℕ, String, List, [], ◌∷◌, string_eq}
use gobds.Base.Dict.{Dict, lookup, insert}
use gobds.Base.Result.{Result, ok, ◌>>=◌}
use gobds.Float.{Float}
use gobds.Base.Int.{ℤ}
use gobds.Claim.Model.{PlayerClaim}
use gobds.Claim.Snapshot.Validate.{BuildError}
use gobds.Claim.Snapshot.Cells.{CellKey, or_empty, cell_at, add_claim}

pub record SpatialIndex : Type 0 where
  pub cells : Dict String (Dict CellKey (List PlayerClaim))
  pub cell_count : ℕ

-- `m[dimension]`, where a dimension that is missing is made.
abbrev pub dimension_cells :
    String → Dict String (Dict CellKey (List PlayerClaim)) → Dict CellKey (List PlayerClaim)
dimension_cells dimension m = or_empty (lookup dimension m)

unfoldable pub index_claim :
    (Float → ℤ) → PlayerClaim → SpatialIndex → Result BuildError SpatialIndex
index_claim wild c ix = do
  let dimension = c.location.dimension
  g ←
      add_claim wild c
        (record { cells = dimension_cells dimension ix.cells; count = ix.cell_count })
  ok (record { cells = insert dimension g.cells ix.cells; cell_count = g.count })

unfoldable pub index_claims :
    (Float → ℤ) → List PlayerClaim → SpatialIndex → Result BuildError SpatialIndex
index_claims wild [] ix = ok ix
index_claims wild (c ∷ cs) ix = do next ← index_claim wild c ix; index_claims wild cs next

-- The claims entered in a cell of a dimension, in the order of entry.
abbrev pub entered : String → CellKey → SpatialIndex → List PlayerClaim
entered dimension k ix = cell_at k (dimension_cells dimension ix.cells)

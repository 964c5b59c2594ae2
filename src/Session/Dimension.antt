-- ===== src/Session/Dimension.antt =====
-- claimDimensionFromInt of session/util.go.
use gobds.Base.{
  String, not, ◌&&◌, ◌||◌, Option, none, some, List, [], ◌∷◌, ◌==◌, string_eq, if◌then◌else◌,
}
use gobds.Base.Int.{ℤ, pos, int_eq}
use gobds.Claim.Dimension.{canonical_dimension}

-- The fields of protocol.DimensionDefinition that are read; the range is of heights.
pub record DimensionDefinition : Type 0 where
  pub name : String
  pub dimension_type : ℤ
  pub low : ℤ
  pub high : ℤ

-- The loop, with the name that was found before, or "".
unfoldable pub resolve_dimension : ℤ → List DimensionDefinition → String → Option String
resolve_dimension d [] resolved = if resolved == "" then none else some resolved
resolve_dimension d (definition ∷ rest) resolved =
    let canonical = canonical_dimension definition.name in
    let skipped = resolve_dimension d rest resolved in
    let taken = resolve_dimension d rest canonical.0 in
    if not (definition.dimension_type == d)
    then skipped
    else if not canonical.1 || (not (resolved == "") && not (resolved == canonical.0))
    then none
    else taken

unfoldable pub claim_dimension_from_int : ℤ → List DimensionDefinition → Option String
claim_dimension_from_int d definitions =
    if d == pos 0
    then some "minecraft:overworld"
    else if d == pos 1
    then some "minecraft:nether"
    else if d == pos 2
    then some "minecraft:end"
    else resolve_dimension d definitions ""

-- ===== src/Claim/Snapshot/Validate.antt =====
-- cloneAndValidateClaim, validateFeature and cloneFeature of claim/snapshot.go.
use gobds.Base.{
  String, Bool, true, false, ◌&&◌, ◌||◌, not, Option, none, some, List, [], ◌∷◌, ◌==◌, string_eq,
  if◌then◌else◌,
}
use gobds.Base.Result.{Result, ok, err, ◌>>=◌, ◌>>◌}
use gobds.Float.{Float, nan, neg_inf, pos_inf, fin}
use gobds.Claim.Model.{
  Vector2, Vector3, Feature, PlayerClaim, feature_type_mineable, feature_type_block_placeable,
  feature_type_block_interactable, feature_type_entity_interactable, feature_type_entity_hurt,
  feature_type_drop_items, feature_type_pickup_items,
}
use gobds.Claim.Dimension.{canonical_dimension}

-- The errors of BuildSnapshot, with the values that their texts show.
pub data BuildError : Type 0 where
  missing_id_or_owner : String → BuildError
  invalid_dimension : String → String → BuildError
  non_finite_bounds : String → BuildError
  unsupported_feature : String → String → BuildError
  non_finite_feature_start : String → BuildError
  non_finite_feature_end : String → BuildError
  duplicate_claim_id : String → BuildError
  bounds_exceed_index : String → BuildError
  too_many_cells : String → BuildError

unfoldable pub float32_invalid : Float → Bool
float32_invalid nan = true
float32_invalid neg_inf = true
float32_invalid pos_inf = true
float32_invalid (fin a) = false

unfoldable pub finite2 : Vector2 → Bool
finite2 v = not (float32_invalid v.x) && not (float32_invalid v.z)

unfoldable pub finite3 : Vector3 → Bool
finite3 v = not (float32_invalid v.x) && not (float32_invalid v.y) && not (float32_invalid v.z)

abbrev fail_if : Bool → BuildError → Result BuildError (Unit {0})
fail_if b e = if b then err e else ok tt

unfoldable pub known_feature_type : String → Bool
known_feature_type t =
    t == feature_type_mineable
    || t == feature_type_block_placeable
    || t == feature_type_block_interactable
    || t == feature_type_entity_interactable
    || t == feature_type_entity_hurt
    || t == feature_type_drop_items
    || t == feature_type_pickup_items

-- A pointer that is not nil and points to a vector with a component that is no finite number.
abbrev pub not_finite : Option Vector3 → Bool
not_finite none = false
not_finite (some v) = not (finite3 v)

unfoldable pub validate_feature : String → Feature → Result BuildError (Unit {0})
validate_feature claim_id feature = do
  fail_if (not (known_feature_type feature.type)) (unsupported_feature claim_id feature.type)
  fail_if (not_finite feature.from_location) (non_finite_feature_start claim_id)
  fail_if (not_finite feature.to_location) (non_finite_feature_end claim_id)

-- append([]string(nil), source...): nil where the source is empty.
unfoldable pub clone_strings : Option (List String) → Option (List String)
clone_strings none = none
clone_strings (some []) = none
clone_strings (some (s ∷ ss)) = some (s ∷ ss)

-- The two locations are copied, so they are the same values.
unfoldable pub clone_feature : Feature → Feature
clone_feature source = record source {
  block_type_ids = clone_strings source.block_type_ids;
  entity_type_ids = clone_strings source.entity_type_ids;
  item_type_ids = clone_strings source.item_type_ids;
}

unfoldable pub clone_features : String → List Feature → Result BuildError (List Feature)
clone_features claim_id [] = ok []
clone_features claim_id (f ∷ fs) = do
  validate_feature claim_id f
  rest ← clone_features claim_id fs
  ok (clone_feature f ∷ rest)

abbrev or_key : String → String → String
or_key id key = if id == "" then key else id

unfoldable pub clone_and_validate_claim : String → PlayerClaim → Result BuildError PlayerClaim
clone_and_validate_claim key source = do
  let id = or_key source.id key
  fail_if (id == "" || source.owner_xuid == "") (missing_id_or_owner key)
  let canonical = canonical_dimension source.location.dimension
  fail_if (not canonical.1) (invalid_dimension id source.location.dimension)
  fail_if (not (finite2 source.location.pos1) || not (finite2 source.location.pos2))
      (non_finite_bounds id)
  features ← clone_features id source.features
  ok (record source {
    id = id;
    location = record (source.location) { dimension = canonical.0 };
    features = features;
  })

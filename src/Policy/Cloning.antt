-- ===== src/Policy/Cloning.antt =====
-- What the copy that cloneFeature of claim/snapshot.go makes of a feature's lists of ids means to
-- featureAllowsType of session/util_claim_action.go.
use gobds.Base.{
  String, ◌≡◌, Bool, true, false, ◌||◌, Option, none, some, List, [], ◌∷◌, ◌==◌, string_eq,
  if◌then◌else◌, arith,
}
use gobds.Claim.Model.{
  Feature, feature_type_mineable, feature_type_block_placeable, feature_type_block_interactable,
  feature_type_entity_interactable, feature_type_entity_hurt, feature_type_drop_items,
}
use gobds.Claim.Snapshot.Validate.{clone_strings, clone_feature}
use gobds.Policy.{lists, feature_allows_type}

-- A slice that is not nil and has no item.
abbrev pub is_empty_list : Option (List String) → Bool
is_empty_list none = false
is_empty_list (some []) = true
is_empty_list (some (s ∷ ss)) = false

-- The list of ids that a kind of feature is checked against.
abbrev pub ids_for : Feature → String → Option (List String)
ids_for f kind =
    if kind == feature_type_mineable
      || kind == feature_type_block_placeable
      || kind == feature_type_block_interactable
    then f.block_type_ids
    else if kind == feature_type_entity_interactable || kind == feature_type_entity_hurt
    then f.entity_type_ids
    else if kind == feature_type_drop_items
    then f.item_type_ids
    else none

lists-clone_strings :
    (ids : Option (List String)) (id : String)
    → lists (clone_strings ids) id ≡ lists ids id || is_empty_list ids
unfolding lists clone_strings
lists-clone_strings none id = ground arith
lists-clone_strings (some []) id = ground arith
lists-clone_strings (some (s ∷ ss)) id = ground arith

-- The copy of a feature in a snapshot allows an id exactly when the feature itself does, or the list
-- of ids that its kind is checked against is present and empty: then the copy allows every id.
pub feature_allows_type-clone_feature :
    (f : Feature) (kind id : String)
    → feature_allows_type (clone_feature f) kind id
      ≡ feature_allows_type f kind id || is_empty_list (ids_for f kind)
unfolding feature_allows_type clone_feature
feature_allows_type-clone_feature f kind id = ground (
  arith,
  lists-clone_strings f.block_type_ids id,
  lists-clone_strings f.entity_type_ids id,
  lists-clone_strings f.item_type_ids id,
)

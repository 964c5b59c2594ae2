-- ===== src/Policy.antt =====
-- session/util_claim_action.go: the decision whether a player may act in a claim.
pub mod Rules
pub mod Laws
pub mod Cloning
use gobds.Base.{
  String, ◌≡◌, refl, Bool, true, false, not, ◌&&◌, ◌||◌, Option, none, some, List, [], ◌∷◌, ◌==◌,
  contains, string_eq, if◌then◌else◌,
}
use gobds.Claim.Model.{
  Vector3, Feature, PlayerClaim, feature_type_mineable, feature_type_block_placeable,
  feature_type_block_interactable, feature_type_entity_interactable, feature_type_entity_hurt,
  feature_type_drop_items,
}
use gobds.Geometry.{inside_vector3, feature_bounds, inside_feature}

pub data ClaimAction : Type 0 where
  render block_break block_place block_interact entity_interact : ClaimAction
  entity_hurt item_release item_throw item_drop : ClaimAction

-- The argument of type `any`: a position, a claimActionData, or something else.
pub data Payload : Type 0 where
  vec3 : Vector3 → Payload
  action_data : Vector3 → String → Payload
  other : Payload

pub record ClaimActor : Type 0 where
  pub xuid : String
  pub operator : Bool

pub record ClaimActionData : Type 0 where
  pub position : Vector3
  pub type_id : String

unfoldable pub claim_action_data_from : Payload → Option ClaimActionData
claim_action_data_from (vec3 v) = some (record { position = v; type_id = "" })
claim_action_data_from (action_data v t) = some (record { position = v; type_id = t })
claim_action_data_from other = none

unfoldable pub valid_claim : PlayerClaim → Bool
valid_claim c = not (c.id == "") && not (c.owner_xuid == "") && not (c.location.dimension == "")

unfoldable pub claim_owner_or_trusted : PlayerClaim → ClaimActor → Bool
claim_owner_or_trusted c actor =
    c.owner_xuid == actor.xuid || contains c.trusted_xuids actor.xuid || actor.operator

-- A list of allowed ids that is nil allows every id.
unfoldable pub lists : Option (List String) → String → Bool
lists none id = true
lists (some ids) id = contains ids id

unfoldable pub feature_allows_type : Feature → String → String → Bool
feature_allows_type f feature_type type_id =
    if type_id == ""
    then true
    else if feature_type == feature_type_mineable
        || feature_type == feature_type_block_placeable
        || feature_type == feature_type_block_interactable
    then lists f.block_type_ids type_id
    else if feature_type == feature_type_entity_interactable
        || feature_type == feature_type_entity_hurt
    then lists f.entity_type_ids type_id
    else if feature_type == feature_type_drop_items
    then lists f.item_type_ids type_id
    else true

-- The loop of handleClaimActionInFeature.
unfoldable pub some_feature : PlayerClaim → ClaimActionData → String → List Feature → Bool
some_feature c d feature_type [] = false
some_feature c d feature_type (f ∷ fs) =
    let rest = some_feature c d feature_type fs in
    if not (f.type == feature_type)
    then rest
    else if inside_feature c f d.position && feature_allows_type f feature_type d.type_id
    then true
    else rest

unfoldable pub handle_claim_action_in_feature : PlayerClaim → Payload → String → Bool
handle_claim_action_in_feature c payload feature_type = elim (claim_action_data_from payload) [
  | none ↦ true
  | some d ↦ some_feature c d feature_type c.features
]

unfoldable pub feature_removes_deny_block : Feature → Bool
feature_removes_deny_block f =
    f.type == feature_type_mineable || f.type == feature_type_block_placeable

-- The loop of handleClaimActionRender.
unfoldable pub renders : PlayerClaim → Vector3 → List Feature → Bool
renders c v [] = false
renders c v (f ∷ fs) =
    let rest = renders c v fs in
    let (low, high) = feature_bounds c f in
    if not (feature_removes_deny_block f)
    then rest
    else if inside_vector3 v low high
    then true
    else rest

unfoldable pub handle_claim_action_render : PlayerClaim → Payload → Bool
handle_claim_action_render c (vec3 v) = renders c v c.features
handle_claim_action_render c (action_data v t) = true
handle_claim_action_render c other = true

abbrev pub is_public_block : String → Bool
is_public_block t =
    t == "pokeb:pc"
    || t == "pokeb:healing_machine"
    || t == "pokeb:trade_machine"
    || t == "minecraft:ender_chest"

unfoldable pub admin_claim_block_interaction_allowed : Payload → Bool
admin_claim_block_interaction_allowed payload = elim (claim_action_data_from payload) [
  | none ↦ true
  | some d ↦ if d.type_id == "" then true else is_public_block d.type_id
]

unfoldable pub claim_action_block_interact_permitted : PlayerClaim → Payload → Bool
claim_action_block_interact_permitted c payload =
    if c.owner_xuid == "*" && admin_claim_block_interaction_allowed payload
    then true
    else handle_claim_action_in_feature c payload feature_type_block_interactable

unfoldable pub claim_action_entity_interact_permitted : PlayerClaim → Payload → Bool
claim_action_entity_interact_permitted c payload =
    if c.owner_xuid == "*"
    then true
    else handle_claim_action_in_feature c payload feature_type_entity_interactable

unfoldable pub claim_action_item_drop_permitted : PlayerClaim → Payload → Bool
claim_action_item_drop_permitted c payload =
    if c.owner_xuid == "*"
    then true
    else handle_claim_action_in_feature c payload feature_type_drop_items

-- The switch of ClaimActionPermitted.
unfoldable pub permitted_by_action : PlayerClaim → ClaimAction → Payload → Bool
permitted_by_action c render p = handle_claim_action_render c p
permitted_by_action c block_break p = handle_claim_action_in_feature c p feature_type_mineable
permitted_by_action c block_place p =
    handle_claim_action_in_feature c p feature_type_block_placeable
permitted_by_action c block_interact p = claim_action_block_interact_permitted c p
permitted_by_action c entity_interact p = claim_action_entity_interact_permitted c p
permitted_by_action c entity_hurt p = handle_claim_action_in_feature c p feature_type_entity_hurt
permitted_by_action c item_release p = true
permitted_by_action c item_throw p = true
permitted_by_action c item_drop p = claim_action_item_drop_permitted c p

unfoldable pub claim_action_permitted : PlayerClaim → ClaimActor → ClaimAction → Payload → Bool
claim_action_permitted c actor action payload =
    if not (valid_claim c) || actor.xuid == ""
    then true
    else if claim_owner_or_trusted c actor
    then true
    else permitted_by_action c action payload

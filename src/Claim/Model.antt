-- ===== src/Claim/Model.antt =====
-- claim/model.go. A pointer that may be nil is an `Option`; so is a slice of allowed type ids,
-- whose nil is tested. Other slices are read only by their items.
use gobds.Base.{String, List, Option}
use gobds.Float.{Float}

pub record Vector2 : Type 0 where
  pub x : Float
  pub z : Float

pub record Vector3 : Type 0 where
  pub x : Float
  pub y : Float
  pub z : Float

pub record Location : Type 0 where
  pub dimension : String
  pub pos1 : Vector2
  pub pos2 : Vector2

abbrev pub feature_type_mineable : String
feature_type_mineable = "mineable"

abbrev pub feature_type_block_placeable : String
feature_type_block_placeable = "blockPlaceable"

abbrev pub feature_type_block_interactable : String
feature_type_block_interactable = "blockIntractable"

abbrev pub feature_type_entity_interactable : String
feature_type_entity_interactable = "entityIntractable"

abbrev pub feature_type_entity_hurt : String
feature_type_entity_hurt = "entityHurt"

abbrev pub feature_type_drop_items : String
feature_type_drop_items = "dropItems"

abbrev pub feature_type_pickup_items : String
feature_type_pickup_items = "pickupItems"

pub record Feature : Type 0 where
  pub type : String
  pub from_location : Option Vector3
  pub to_location : Option Vector3
  pub block_type_ids : Option (List String)
  pub entity_type_ids : Option (List String)
  pub item_type_ids : Option (List String)

pub record PlayerClaim : Type 0 where
  pub id : String
  pub owner_xuid : String
  pub location : Location
  pub features : List Feature
  pub trusted_xuids : List String

-- One row of the service's answer; its two time stamps are never read.
pub record ResponseModel : Type 0 where
  pub key : String
  pub body : PlayerClaim

-- ===== src/Session/Handlers/Inventory/ClaimChecks.antt =====
-- handleClaims of session/handler_inventory_transaction.go: dropped items, a click on a block, the
-- use of an item on an entity. Each check says whether it cancels the packet.
use gobds.Base.{
  String, Bool, true, false, not, ◌||◌, Option, none, some, List, [], ◌∷◌, ◌==◌, string_eq,
  if◌then◌else◌,
}
use gobds.Base.Int.{ℤ, pos, int_eq, ◌+ℤ◌, ◌-ℤ◌}
use gobds.Base.Dict.{lookup}
use gobds.Clock.{Time}
use gobds.Area.{wrap32}
use gobds.Claim.Model.{Vector3}
use gobds.Entity.{Entity, by_runtime_id}
use gobds.Policy.{
  ClaimAction, item_drop, block_place, block_interact, entity_interact, entity_hurt, action_data,
}
use gobds.Session.State.{Block, Platform, Session}
use gobds.Session.Corrective.{claim_message}
use gobds.Session.Positions.{BlockPos, block_pos_to_vec3, permits}
use gobds.Session.Handlers.Inventory.Packet.{
  InventoryAction, UseItem, use_item, UseItemOnEntity, use_item_on_entity, other,
  InventoryTransaction, int16_of, uint32_of,
}

-- Unless the action is permitted, the player is told and the packet is cancelled.
abbrev pub unless_permitted : Platform → Vector3 → String → Time → Session × Bool → Session × Bool
unless_permitted platform position text now (s, true) = (s, false)
unless_permitted platform position text now (s, false) =
    (claim_message platform position text now s, true)

unfoldable pub dropped_item_network_id : Platform → InventoryAction → Option ℤ
dropped_item_network_id platform a =
    let id = if a.new_item_id == pos 0 then a.old_item_id else a.new_item_id in
    if not (a.source_type == platform.inventory_action_source_world)
    then none
    else if id == pos 0
    then none
    else some id

-- registry.Item(int16(id))
abbrev pub item : Session → ℤ → Option String
item s id = lookup (int16_of id) s.items

abbrev pub dropped_item : Platform → InventoryAction → Session → Option String
dropped_item platform a s = elim (dropped_item_network_id platform a) [
  | none ↦ none
  | some id ↦ item s id
]

abbrev pub until_cancelled : (Session → Session × Bool) → Session × Bool → Session × Bool
until_cancelled rest (s, true) = (s, true)
until_cancelled rest (s, false) = rest s

-- The loop of handleClaimDropItems.
unfoldable pub handle_claim_drop_items :
    Platform → Time → List InventoryAction → Session → Session × Bool
handle_claim_drop_items platform now [] s = (s, false)
handle_claim_drop_items platform now (a ∷ rest) s =
    let position = s.afk.last_position in
    elim (dropped_item platform a s) [
      | none ↦ handle_claim_drop_items platform now rest s
      | some name ↦ until_cancelled (handle_claim_drop_items platform now rest) (
          unless_permitted platform position "You cannot drop items inside this claim." now
            (permits platform item_drop (action_data position name) now s))
    ]

-- One step on int32 from a coordinate.
abbrev up : ℤ → ℤ
up v = wrap32 (v +ℤ pos 1)

abbrev down : ℤ → ℤ
down v = wrap32 (v -ℤ pos 1)

unfoldable pub offset_block_pos : BlockPos → ℤ → Option BlockPos
offset_block_pos p face =
    if face == pos 0
    then some (record p { y = down p.y })
    else if face == pos 1
    then some (record p { y = up p.y })
    else if face == pos 2
    then some (record p { z = down p.z })
    else if face == pos 3
    then some (record p { z = up p.z })
    else if face == pos 4
    then some (record p { x = down p.x })
    else if face == pos 5
    then some (record p { x = up p.x })
    else none

-- A stick and a golden shovel may click on every block.
abbrev pub is_exempt : Option String → Bool
is_exempt none = false
is_exempt (some name) = name == "minecraft:stick" || name == "minecraft:golden_shovel"

abbrev pub place_at :
    Platform → Time → Vector3 → Session → Option BlockPos → Option Block → Session × Bool
place_at platform now clicked s none b = (s, false)
place_at platform now clicked s (some p) none = (s, false)
place_at platform now clicked s (some p) (some b) =
    unless_permitted platform clicked "You cannot place blocks inside this claim." now
      (permits platform block_place (action_data (block_pos_to_vec3 p) b.type_id) now s)

abbrev pub click_known : Platform → Time → UseItem → Session → Block → Session × Bool
click_known platform now u s b =
    let clicked = block_pos_to_vec3 u.block_position in
    if is_exempt (item s u.held_network_id)
    then (s, false)
    else if not (u.held_block_runtime_id == pos 0)
    then place_at platform now clicked s (offset_block_pos u.block_position u.block_face)
        (platform.block_by_runtime_id (uint32_of u.held_block_runtime_id))
    else unless_permitted platform clicked "You cannot interact with blocks inside this claim." now
        (permits platform block_interact (action_data clicked b.type_id) now s)

unfoldable pub handle_claim_click_block : Platform → Time → UseItem → Session → Session × Bool
handle_claim_click_block platform now u s = elim (platform.block_by_runtime_id u.block_runtime_id) [
  | none ↦ (s, false)
  | some b ↦ click_known platform now u s b
]

-- handleClaimUseItem
unfoldable pub handle_claim_use_item :
    Platform → Time → InventoryTransaction → Session → Session × Bool
handle_claim_use_item platform now packet s = elim packet.transaction_data [
  | use_item u ↦
      let clicked = handle_claim_click_block platform now u s in
      if u.action_type == platform.use_item_action_click_block then clicked else (s, false)
  | use_item_on_entity u ↦ (s, false)
  | other ↦ (s, false)
]

-- The action on an entity, with the words of its message.
abbrev entity_action : Platform → ℤ → Option (ClaimAction × String)
entity_action platform t =
    if t == platform.use_item_on_entity_action_interact
    then some (entity_interact, "You cannot interact with entities inside this claim.")
    else if t == platform.use_item_on_entity_action_attack
    then some (entity_hurt, "You cannot hurt entities inside this claim.")
    else none

abbrev pub use_on :
    Platform → Time → Session → Entity → Option (ClaimAction × String) → Session × Bool
use_on platform now s e none = (s, false)
use_on platform now s e (some (action, text)) =
    unless_permitted platform e.position text now
      (permits platform action (action_data e.position e.actor_type) now s)

abbrev pub is_protected : Entity → Bool
is_protected e = e.actor_type == "minecraft:armor_stand" || e.actor_type == "minecraft:painting"

abbrev pub use_on_found :
    Platform → Time → UseItemOnEntity → Session → Option Entity → Session × Bool
use_on_found platform now u s none = (s, false)
use_on_found platform now u s (some e) =
    if not (is_protected e)
    then (s, false)
    else use_on platform now s e (entity_action platform u.action_type)

-- handleClaimUseItemOnEntity
unfoldable pub handle_claim_use_item_on_entity :
    Platform → Time → InventoryTransaction → Session → Session × Bool
handle_claim_use_item_on_entity platform now packet s = elim packet.transaction_data [
  | use_item u ↦ (s, false)
  | use_item_on_entity u ↦
      use_on_found platform now u s (by_runtime_id u.target_entity_runtime_id s.entities)
  | other ↦ (s, false)
]

-- handleClaims
unfoldable pub handle_claims : Platform → Time → InventoryTransaction → Session → Session × Bool
handle_claims platform now packet s =
    until_cancelled (handle_claim_use_item_on_entity platform now packet) (
      until_cancelled (handle_claim_use_item platform now packet)
        (handle_claim_drop_items platform now packet.actions s))

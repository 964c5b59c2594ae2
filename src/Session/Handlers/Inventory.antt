-- ===== src/Session/Handlers/Inventory.antt =====
-- session/handler_inventory_transaction.go: what a player does with items, in the order in which the
-- handler checks it. The children hold the claim checks and the proofs. A message stands without its
-- colours.
pub mod Packet
pub mod ClaimChecks
pub mod Border
pub mod Drops
use gobds.Base.{
  ℕ, ◌≡◌, String, Bool, true, false, not, ◌&&◌, ◌||◌, Option, none, some, List, [], ◌∷◌, length,
  ◌==◌, if◌then◌else◌,
}
use gobds.Base.Int.{ℤ, pos, int_eq, ltb_ℤ}
use gobds.Clock.{Time, Duration}
use gobds.Area.{Area2D, position_inside}
use gobds.Claim.Metrics
use gobds.Traffic
use gobds.Traffic.{traffic_inventory}
use gobds.Session.Data.{set_last_drop, interact_with_block}
use gobds.Session.State.{Block, Platform, Session, metric}
use gobds.Session.Positions.{outside_border}
use gobds.Session.Handlers.Handling.{Handled, forwarded, cancelled, malformed}
use gobds.Session.Handlers.Inventory.Packet.{
  InventoryAction, UseItem, use_item, UseItemOnEntity, use_item_on_entity, other,
  InventoryTransaction,
}
use gobds.Session.Handlers.Inventory.ClaimChecks.{handle_claims}

abbrev pub is_inventory : Platform → Option ℤ → Bool
is_inventory platform none = false
is_inventory platform (some w) = w == platform.window_id_inventory

-- The first loop of handleInteraction.
unfoldable pub note_drops : Platform → Time → List InventoryAction → Session → Session
note_drops platform now [] s = s
note_drops platform now (a ∷ rest) s =
    let noted = record s { player = set_last_drop now s.player } in
    if not (a.source_type == platform.inventory_action_source_world)
      || not (is_inventory platform a.window_id)
    then note_drops platform now rest s
    else note_drops platform now rest noted

abbrev is_player_click : Platform → UseItem → Bool
is_player_click platform u =
    u.action_type == platform.use_item_action_click_block
    && u.trigger_type == platform.trigger_type_player_input

-- A block of the kinds that are listed cancels the packet soon after a drop.
abbrev cancels_block : Time → Session → Option Block → Bool
cancels_block now s none = false
cancels_block now s (some b) = b.interactive && not (interact_with_block now s.player)

-- handleInteraction: whether it cancels.
unfoldable pub handle_interaction :
    Platform → Time → InventoryTransaction → Session → Session × Bool
handle_interaction platform now packet s =
    let s' = note_drops platform now packet.actions s in
    elim packet.transaction_data [
      | use_item u ↦ (
        s',
        is_player_click platform u
            && cancels_block now s' (platform.block_by_runtime_id u.block_runtime_id),
      )
      | use_item_on_entity u ↦ (s', false)
      | other ↦ (s', false)
    ]

-- handleWorldBorder: whether it cancels.
unfoldable pub handle_world_border : Platform → InventoryTransaction → Session → Bool
handle_world_border platform packet s = elim packet.transaction_data [
  | use_item u ↦
      u.action_type == platform.use_item_action_click_block
      && outside_border s.border u.block_position.x u.block_position.z
  | use_item_on_entity u ↦ false
  | other ↦ false
]

abbrev pub cancelled_if : Bool → Handled
cancelled_if b = if b then cancelled else forwarded

-- The part of Handle after the limits, without its deferred latency.
unfoldable pub check_transaction :
    Platform → Time → InventoryTransaction → Session → Session × Handled
check_transaction platform now packet s =
    let (s', stops) = handle_interaction platform now packet s in
    let (s'', denied) = handle_claims platform now packet s' in
    if stops
    then (s', cancelled)
    else if handle_world_border platform packet s'
    then (s', cancelled)
    else (s'', cancelled_if denied)

abbrev timed : Duration → Session × Handled → Session × Handled
timed elapsed (s, o) = (metric (Metrics.record_latency elapsed) s, o)

unfoldable pub handle_checked :
    Platform → Time → Duration → InventoryTransaction → Session → Session × Handled
handle_checked platform now elapsed packet s =
    timed elapsed (check_transaction platform now packet (metric Metrics.packet s))

abbrev pub too_many_actions : Session → InventoryTransaction → Bool
too_many_actions s packet =
    ltb_ℤ s.traffic.config.max_inventory_actions (pos (length packet.actions))

-- Handle, for a packet that comes from the client or from the server.
unfoldable pub handle_inventory_transaction :
    Platform → Bool → Time → Duration → InventoryTransaction → Session → Session × Handled
handle_inventory_transaction platform from_client now elapsed packet s =
    let (traffic, passes) = Traffic.allow platform.refilled traffic_inventory now s.traffic in
    let limited = record s { traffic = traffic } in
    if not from_client
    then handle_checked platform now elapsed packet s
    else if too_many_actions s packet
    then (
      record s { traffic = Traffic.malformed traffic_inventory s.traffic },
      malformed "inventory transaction has too many actions",
    )
    else if not passes
    then (limited, cancelled)
    else handle_checked platform now elapsed packet limited

-- ===== src/Tests/Inventory.antt =====
-- Tests of the inventory handler (session/handler_inventory_transaction.go).
use gobds.Base.{◌≡◌, ◌≢◌, refl, false, some, [], ◌∷◌, All, string_eq, ℕ_discrete}
use gobds.Base.Int.{pos, ℤ-discrete}
use gobds.Base.Dict.{lookup}
use gobds.Area.{Area2D, position_inside}
use gobds.Session.State.{Session}
use gobds.Session.Handlers.Inventory.Packet.{UseItem, use_item, other, InventoryTransaction}
use gobds.Session.Handlers.Inventory.{handle_inventory_transaction}
use gobds.Session.Handlers.Handling.{forwarded}
use gobds.Session.Handlers.Inventory.Border.{handle_inventory_transaction-outside}
use gobds.Session.Handlers.Inventory.Drops.{MayDrop, handle_inventory_transaction-MayDrop}
use gobds.Tests.{spot}
use gobds.Tests.Sessions.{platform, session}

-- A click beyond the border.
abbrev far_click : UseItem
far_click = record {
  action_type = pos 0;
  trigger_type = pos 1;
  block_runtime_id = 9;
  block_position = record { x = pos 300; y = pos 64; z = pos 4 };
  block_face = pos 1;
  held_network_id = pos 0;
  held_block_runtime_id = pos 0;
}

abbrev far_packet : InventoryTransaction
far_packet = record { actions = []; transaction_data = use_item far_click }

abbrev field : Area2D
field = record { min_x = pos 0; min_z = pos 0; max_x = pos 100; max_z = pos 100 }

handle_inventory_transaction-outside_example :
    (handle_inventory_transaction platform false 6 (pos 1) far_packet session).1 ≢ forwarded
unfolding position_inside
handle_inventory_transaction-outside_example =
    handle_inventory_transaction-outside platform false 6 (pos 1) far_packet session field far_click
      refl refl refl refl

-- The player stands outside the claim and drops dirt.
abbrev away : Session
away = record session {
  afk = record (session.afk) { last_position = spot 40 4 };
  items = (pos 3, "minecraft:dirt") ∷ [];
}

abbrev drop : InventoryTransaction
drop = record {
  actions =
      record {
        source_type = pos 2;
        window_id = some (pos 0);
        new_item_id = pos 3;
        old_item_id = pos 0;
      }
      ∷ [];
  transaction_data = other;
}

drop-forwarded : (handle_inventory_transaction platform false 6 (pos 1) drop away).1 ≡ forwarded
unfolding handle_inventory_transaction gobds.Session.Handlers.Inventory.handle_checked
    gobds.Session.Handlers.Inventory.check_transaction
    gobds.Session.Handlers.Inventory.handle_interaction
    gobds.Session.Handlers.Inventory.handle_world_border
    gobds.Session.Handlers.Inventory.ClaimChecks.handle_claims
    gobds.Session.Handlers.Inventory.ClaimChecks.handle_claim_drop_items
    gobds.Session.Handlers.Inventory.ClaimChecks.handle_claim_use_item
    gobds.Session.Handlers.Inventory.ClaimChecks.handle_claim_use_item_on_entity
    gobds.Session.Handlers.Inventory.ClaimChecks.dropped_item_network_id ℤ-discrete ℕ_discrete
    lookup gobds.Session.Handlers.Inventory.note_drops
    gobds.Session.Claims.session_claim_action_permitted gobds.Session.Claims.decide
    gobds.Session.Claims.decide_data gobds.Policy.claim_action_data_from
    gobds.Session.Claims.decide_status gobds.Claim.Factory.query
    gobds.Claim.Snapshot.Build.supported gobds.Claim.Snapshot.Build.age gobds.Clock.is_zero
    gobds.Clock.sub_time gobds.Session.Claims.decide_in
    gobds.Session.Dimension.claim_dimension_from_int gobds.Claim.Snapshot.Build.candidates string_eq
    gobds.Float.floor_cell gobds.Float.int32_of gobds.Float.float_min gobds.Float.float_max
    gobds.Geometry.between gobds.Geometry.claim_contains gobds.Claim.Snapshot.Cells.CellKey-discrete
    gobds.Claim.Snapshot.Cells.cell_for gobds.Session.Claims.single_claim_at
    gobds.Session.Claims.match_claims gobds.Session.Claims.decide_match
    gobds.Session.Data.set_last_drop
drop-forwarded = refl

handle_inventory_transaction-MayDrop_example : All (MayDrop platform 6 away) drop.actions
handle_inventory_transaction-MayDrop_example =
    handle_inventory_transaction-MayDrop platform false 6 (pos 1) drop away drop-forwarded

-- ===== src/Session/Handlers/Inventory/Border.antt =====
-- Clicks on blocks outside the border (session/handler_inventory_transaction.go).
use gobds.Base.{
  ◌≡◌, ◌≢◌, refl, ap, ◌∙◌, String, Bool, true, false, not, ◌||◌, some, List, [], ◌∷◌, ◌==◌,
  if◌then◌else◌, if_both, arith,
}
use gobds.Base.Int.{int_eq}
use gobds.Clock.{Time, Duration}
use gobds.Area.{Area2D, position_inside}
use gobds.Claim.Metrics
use gobds.Traffic
use gobds.Traffic.{traffic_inventory}
use gobds.Session.Data.{set_last_drop}
use gobds.Session.State.{Platform, Session, metric}
use gobds.Session.Handlers.Inventory.Packet.{
  InventoryAction, UseItem, use_item, use_item_on_entity, other, TransactionData,
  InventoryTransaction,
}
use gobds.Session.Handlers.Inventory.ClaimChecks.{handle_claims}
use gobds.Session.Handlers.Inventory.{
  is_inventory, note_drops, handle_interaction, handle_world_border, cancelled_if,
  check_transaction, handle_checked, handle_inventory_transaction, too_many_actions,
}
use gobds.Session.Handlers.Handling.{Handled, forwarded, cancelled, malformed}

-- The session with another time of the last drop.
abbrev pub dropped_at : Time → Session → Session
dropped_at t s = record s { player = set_last_drop t s.player }

pub note_drops-dropped_at :
    (platform : Platform) (now : Time) (actions : List InventoryAction) (s : Session)
    → (t : Time) × (note_drops platform now actions s ≡ dropped_at t s)
unfolding note_drops set_last_drop
note_drops-dropped_at platform now [] s = (s.player.last_drop, refl)
note_drops-dropped_at platform now (a ∷ rest) s =
    if_both (λ (u : Session). (t : Time) × (u ≡ dropped_at t s))
      (not (a.source_type == platform.inventory_action_source_world)
        || not (is_inventory platform a.window_id))
      (note_drops-dropped_at platform now rest s)
      (note_drops-dropped_at platform now rest (dropped_at now s))

-- handleInteraction leaves the session as it was, but for the time of the last drop.
pub handle_interaction-dropped_at :
    (platform : Platform) (now : Time) (packet : InventoryTransaction) (s : Session)
    → (t : Time) × ((handle_interaction platform now packet s).0 ≡ dropped_at t s)
unfolding handle_interaction
handle_interaction-dropped_at platform now packet s = by_data packet.transaction_data
  where
    by_data :
        (d : TransactionData)
        → (t : Time) × ((handle_interaction platform now
              (record packet { transaction_data = d })
              s).0
            ≡ dropped_at t s)
    by_data (use_item u) = note_drops-dropped_at platform now packet.actions s
    by_data (use_item_on_entity u) = note_drops-dropped_at platform now packet.actions s
    by_data other = note_drops-dropped_at platform now packet.actions s

-- What a forwarded packet has passed.
abbrev pub Passed : Platform → Time → InventoryTransaction → Session → Type 0
Passed platform now packet s =
    let s' = (handle_interaction platform now packet s).0 in
    (handle_world_border platform packet s' ≡ false)
    × ((handle_claims platform now packet s').1 ≡ false)

by_checks :
    (stops out denied : Bool) (s s' : Session)
    → let r : Session × Handled =
        if stops
        then (s, cancelled)
        else if out
        then (s, cancelled)
        else (s', cancelled_if denied) in
      r.1 ≡ forwarded → (out ≡ false) × (denied ≡ false)
by_checks true out denied s s' h = absurd cc
by_checks false true denied s s' h = absurd cc
by_checks false false true s s' h = absurd cc
by_checks false false false s s' h = (refl, refl)

Passed-of-check :
    (platform : Platform) (now : Time) (packet : InventoryTransaction) (s : Session)
    → (check_transaction platform now packet s).1 ≡ forwarded
    → Passed platform now packet s
unfolding check_transaction
Passed-of-check platform now packet s h =
    let (s', stops) = handle_interaction platform now packet s in
    let (s'', denied) = handle_claims platform now packet s' in
    by_checks stops (handle_world_border platform packet s') denied s' s'' h

by_limits :
    (many passes : Bool) (s s' : Session) (reason : String) (checked : Session × Handled)
    → let r : Session × Handled =
        if many then (s, malformed reason) else if not passes then (s', cancelled) else checked in
      r.1 ≡ forwarded → checked.1 ≡ forwarded
by_limits true passes s s' reason checked h = absurd cc
by_limits false false s s' reason checked h = absurd cc
by_limits false true s s' reason checked h = h

-- The session in which the checks of a forwarded packet begin: the packet has been counted.
abbrev pub Started : Session → Session → Type 0
Started s t =
    (traffic : Traffic.TrafficState) × (t ≡ metric Metrics.packet (record s { traffic = traffic }))

pub Passed-of-forwarded :
    (platform : Platform) (from_client : Bool) (now : Time) (elapsed : Duration)
    (packet : InventoryTransaction) (s : Session)
    → (handle_inventory_transaction platform from_client now elapsed packet s).1 ≡ forwarded
    → (t : Session) × Started s t × Passed platform now packet t
unfolding handle_inventory_transaction handle_checked
Passed-of-forwarded platform false now elapsed packet s h =
    (metric Metrics.packet s, (s.traffic, refl), Passed-of-check platform now packet _ h)
Passed-of-forwarded platform true now elapsed packet s h =
    let (traffic, passes) = Traffic.allow platform.refilled traffic_inventory now s.traffic in
    let limited = record s { traffic = traffic } in
    (
      metric Metrics.packet limited,
      (traffic, refl),
      Passed-of-check platform now packet _ (
          by_limits (too_many_actions s packet) passes _ limited _
            (handle_checked platform now elapsed packet limited) h),
    )

clash : (b : Bool) → b ≡ true → b ≡ false → ⊥
clash b h k = absurd (cc)

world_border-outside :
    (platform : Platform) (packet : InventoryTransaction) (s : Session) (a : Area2D) (u : UseItem)
    → s.border ≡ some a
    → packet.transaction_data ≡ use_item u
    → u.action_type ≡ platform.use_item_action_click_block
    → position_inside a u.block_position.x u.block_position.z ≡ false
    → handle_world_border platform packet s ≡ true
unfolding handle_world_border
world_border-outside platform packet s a u border is_use is_click outside = ground arith

-- A click on a block outside the border is never forwarded, whoever sends the packet.
pub handle_inventory_transaction-outside :
    (platform : Platform) (from_client : Bool) (now : Time) (elapsed : Duration)
    (packet : InventoryTransaction) (s : Session) (a : Area2D) (u : UseItem)
    → s.border ≡ some a
    → packet.transaction_data ≡ use_item u
    → u.action_type ≡ platform.use_item_action_click_block
    → position_inside a u.block_position.x u.block_position.z ≡ false
    → (handle_inventory_transaction platform from_client now elapsed packet s).1 ≢ forwarded
handle_inventory_transaction-outside platform from_client now elapsed packet s a u border is_use
      is_click outside h =
    let (t, (traffic, same), (inside, permitted)) =
      Passed-of-forwarded platform from_client now elapsed packet s h in
    let (dropped, left) = handle_interaction-dropped_at platform now packet t in
    let kept = ap (λ (v : Session). v.border) left ∙ ap (λ (v : Session). v.border) same ∙ border in
    clash _ (world_border-outside platform packet _ a u kept is_use is_click outside) inside

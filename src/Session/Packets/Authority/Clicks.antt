-- ===== src/Session/Packets/Authority/Clicks.antt =====
-- Transactions of items leave what the server decides (session/handler_inventory_transaction.go).
use gobds.Base.{
  refl, String, Bool, true, false, not, Option, none, some, List, [], ◌∷◌, ◌==◌, nat_eq,
  Option-cases, inl, inr, if_both,
}
use gobds.Base.Int.{pos, int_eq}
use gobds.Clock.{Time, Duration}
use gobds.Claim.Model.{Vector3}
use gobds.Entity.{Entity}
use gobds.Claim.Metrics
use gobds.Traffic
use gobds.Traffic.{traffic_inventory}
use gobds.Policy.{ClaimAction, Payload, item_drop, block_place, block_interact, action_data}
use gobds.Session.State.{Block, Platform, Session, metric}
use gobds.Session.Positions.{BlockPos, permits}
use gobds.Session.Handlers.Handling.{cancelled}
use gobds.Session.Handlers.Inventory.{
  note_drops, handle_interaction, handle_world_border, check_transaction, handle_checked,
  too_many_actions, handle_inventory_transaction,
}
use gobds.Session.Handlers.Inventory.Packet.{
  InventoryAction, InventoryTransaction, TransactionData, UseItem, use_item, UseItemOnEntity,
  use_item_on_entity, other,
}
use gobds.Session.Handlers.Inventory.ClaimChecks.{
  is_exempt, is_protected, item, unless_permitted, until_cancelled, dropped_item,
  handle_claim_drop_items, place_at, click_known, handle_claim_click_block, handle_claim_use_item,
  use_on, use_on_found, handle_claim_use_item_on_entity, handle_claims,
}
use gobds.Session.Packets.Authority.{
  Keeps, Keeps-refl, Keeps-trans, after, either, Kept, kept, claim_message-Keeps,
}

abbrev Checked : Type 0
Checked = Session × Bool

unless_permitted-Keeps :
    (platform : Platform) (p : Vector3) (text : String) (now : Time) (r : Checked)
    → Kept r.0 (unless_permitted platform p text now r)
unless_permitted-Keeps platform p text now (s, true) = kept s s _ refl
unless_permitted-Keeps platform p text now (s, false) = record {
  keeps = claim_message-Keeps platform p text now s;
}

module _ (platform : Platform) (now : Time) where
  -- A check of a permission, which leaves its metrics.
  refused-Keeps :
      (p : Vector3) (text : String) (action : ClaimAction) (d : Payload) (s : Session)
      → Kept s (unless_permitted platform p text now (permits platform action d now s))
  refused-Keeps p text action d s =
      after (record { same = refl })
        (unless_permitted-Keeps platform p text now (permits platform action d now s))

  until_cancelled-Keeps :
      (rest : Session → Checked) (s : Session) (r : Checked)
      → Kept s r
      → ((t : Session) → Kept t (rest t))
      → Kept s (until_cancelled rest r)
  until_cancelled-Keeps rest s (t, true) h keeps = h
  until_cancelled-Keeps rest s (t, false) h keeps = after h.keeps (keeps t)

  handle_claim_drop_items-Keeps :
      (actions : List InventoryAction) (s : Session)
      → Kept s (handle_claim_drop_items platform now actions s)
  unfolding handle_claim_drop_items
  handle_claim_drop_items-Keeps [] s = kept s s _ refl
  handle_claim_drop_items-Keeps (a ∷ rest) s = elim (Option-cases (dropped_item platform a s)) [
    | inl e ↦ let h = handle_claim_drop_items-Keeps rest s in rw (e, handle_claim_drop_items) h
    | inr (name, e) ↦
        let h =
          until_cancelled-Keeps (handle_claim_drop_items platform now rest) s _
            (refused-Keeps s.afk.last_position "You cannot drop items inside this claim." item_drop
              (action_data s.afk.last_position name) s)
            (handle_claim_drop_items-Keeps rest) in
        rw (e, handle_claim_drop_items) h
  ]

  place_at-Keeps :
      (p : Vector3) (s : Session) (at : Option BlockPos) (b : Option Block)
      → Kept s (place_at platform now p s at b)
  place_at-Keeps p s none b = kept s s _ refl
  place_at-Keeps p s (some q) none = kept s s _ refl
  place_at-Keeps p s (some q) (some b) = refused-Keeps p _ block_place _ s

  click_known-Keeps :
      (u : UseItem) (s : Session) (b : Block) → Kept s (click_known platform now u s b)
  click_known-Keeps u s b = either s (is_exempt (item s u.held_network_id)) (kept s s false refl) (
      either s (not (u.held_block_runtime_id == pos 0)) (place_at-Keeps _ s _ _)
        (refused-Keeps _ _ block_interact _ s))

  handle_claim_click_block-Keeps :
      (u : UseItem) (s : Session) → Kept s (handle_claim_click_block platform now u s)
  unfolding handle_claim_click_block
  handle_claim_click_block-Keeps u s =
      elim (Option-cases (platform.block_by_runtime_id u.block_runtime_id)) [
        | inl e ↦ rw (e, handle_claim_click_block) (kept s s false refl)
        | inr (b, e) ↦ let h = click_known-Keeps u s b in rw (e, handle_claim_click_block) h
      ]

  handle_claim_use_item-Keeps :
      (actions : List InventoryAction) (d : TransactionData) (s : Session)
      → Kept s (
          handle_claim_use_item platform now (record { actions = actions; transaction_data = d }) s)
  unfolding handle_claim_use_item
  handle_claim_use_item-Keeps actions (use_item u) s =
      either s _ (handle_claim_click_block-Keeps u s) (kept s s false refl)
  handle_claim_use_item-Keeps actions (use_item_on_entity u) s = kept s s _ refl
  handle_claim_use_item-Keeps actions other s = kept s s _ refl

  use_on-Keeps :
      (s : Session) (e : Entity) (a : Option (ClaimAction × String))
      → Kept s (use_on platform now s e a)
  use_on-Keeps s e none = kept s s _ refl
  use_on-Keeps s e (some (action, text)) = refused-Keeps _ text action _ s

  use_on_found-Keeps :
      (u : UseItemOnEntity) (s : Session) (e : Option Entity)
      → Kept s (use_on_found platform now u s e)
  use_on_found-Keeps u s none = kept s s _ refl
  use_on_found-Keeps u s (some e) =
      either s (not (is_protected e)) (kept s s false refl) (use_on-Keeps s e _)

  handle_claim_use_item_on_entity-Keeps :
      (actions : List InventoryAction) (d : TransactionData) (s : Session)
      → Kept s (
          handle_claim_use_item_on_entity platform now
            (record { actions = actions; transaction_data = d })
            s)
  unfolding handle_claim_use_item_on_entity
  handle_claim_use_item_on_entity-Keeps actions (use_item u) s = kept s s _ refl
  handle_claim_use_item_on_entity-Keeps actions (use_item_on_entity u) s = use_on_found-Keeps u s _
  handle_claim_use_item_on_entity-Keeps actions other s = kept s s _ refl

  handle_claims-Keeps :
      (p : InventoryTransaction) (s : Session) → Kept s (handle_claims platform now p s)
  unfolding handle_claims
  handle_claims-Keeps p s =
      until_cancelled-Keeps (handle_claim_use_item_on_entity platform now p) s _
        (until_cancelled-Keeps (handle_claim_use_item platform now p) s _
          (handle_claim_drop_items-Keeps p.actions s)
          (handle_claim_use_item-Keeps p.actions p.transaction_data))
        (handle_claim_use_item_on_entity-Keeps p.actions p.transaction_data)

  note_drops-Keeps :
      (actions : List InventoryAction) (s : Session) → Keeps s (note_drops platform now actions s)
  unfolding note_drops gobds.Session.Data.set_last_drop
  note_drops-Keeps [] s = Keeps-refl s
  note_drops-Keeps (a ∷ rest) s =
      if_both (Keeps s) _ (note_drops-Keeps rest s)
        (Keeps-trans (record { same = refl }) (note_drops-Keeps rest _))

  handle_interaction-Keeps :
      (actions : List InventoryAction) (d : TransactionData) (s : Session)
      → Kept s
          (handle_interaction platform now (record { actions = actions; transaction_data = d }) s)
  unfolding handle_interaction
  handle_interaction-Keeps actions (use_item u) s = record { keeps = note_drops-Keeps actions s }
  handle_interaction-Keeps actions (use_item_on_entity u) s = record {
    keeps = note_drops-Keeps actions s;
  }
  handle_interaction-Keeps actions other s = record { keeps = note_drops-Keeps actions s }

  check_transaction-Keeps :
      (p : InventoryTransaction) (s : Session) → Kept s (check_transaction platform now p s)
  unfolding check_transaction
  check_transaction-Keeps p s =
      let (t, stops) = handle_interaction platform now p s in
      let first = (handle_interaction-Keeps p.actions p.transaction_data s).keeps in
      either s stops (kept s t cancelled first.same) (
        either s (handle_world_border platform p t) (kept s t cancelled first.same)
          (record { keeps = (after first (handle_claims-Keeps p t)).keeps }))

  handle_checked-Keeps :
      (elapsed : Duration) (p : InventoryTransaction) (s : Session)
      → Kept s (handle_checked platform now elapsed p s)
  unfolding handle_checked
  handle_checked-Keeps elapsed p s = record {
    keeps = record { same = (check_transaction-Keeps p (metric Metrics.packet s)).keeps.same };
  }

  pub handle_inventory_transaction-Keeps :
      (from_client : Bool) (elapsed : Duration) (p : InventoryTransaction) (s : Session)
      → Kept s (handle_inventory_transaction platform from_client now elapsed p s)
  unfolding handle_inventory_transaction
  handle_inventory_transaction-Keeps from_client elapsed p s =
      let (traffic, passes) = Traffic.allow platform.refilled traffic_inventory now s.traffic in
      let limited = record s { traffic = traffic } in
      either s (not from_client) (handle_checked-Keeps elapsed p s) (
        either s (too_many_actions s p) (kept s _ _ refl) (
          either s (not passes) (kept s limited cancelled refl)
            (after (record { same = refl }) (handle_checked-Keeps elapsed p limited))))

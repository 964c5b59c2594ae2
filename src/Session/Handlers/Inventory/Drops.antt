-- ===== src/Session/Handlers/Inventory/Drops.antt =====
-- Items that are dropped in a claim (session/handler_inventory_transaction.go).
use gobds.Base.{
  ◌≡◌, refl, ap, subst, sym, ◌∙◌, String, Bool, true, false, Option, none, some, List, [], ◌∷◌, All,
}
use gobds.Base.Int.{int_eq}
use gobds.Clock.{Time, Duration}
use gobds.Claim.Metrics
use gobds.Claim.Metrics.{Metrics}
use gobds.Claim.Factory.{Factory}
use gobds.Policy.{item_drop, action_data}
use gobds.Session.Data.{set_last_drop}
use gobds.Session.State.{Platform, Session, metric}
use gobds.Session.Claims.{decide, session_claim_action_permitted}
use gobds.Session.Claims.Stability.{with_metrics, session_claim_action_permitted-with_metrics}
use gobds.Session.Positions.{permits, caller_of}
use gobds.Session.Handlers.Inventory.Packet.{InventoryAction, InventoryTransaction}
use gobds.Session.Handlers.Inventory.ClaimChecks.{
  unless_permitted, dropped_item, until_cancelled, handle_claim_drop_items, handle_claim_use_item,
  handle_claim_use_item_on_entity, handle_claims,
}
use gobds.Session.Handlers.Inventory.{handle_interaction, handle_inventory_transaction}
use gobds.Session.Handlers.Handling.{forwarded}
use gobds.Session.Handlers.Inventory.Border.{
  dropped_at, handle_interaction-dropped_at, Passed-of-forwarded,
}

-- The claims let the player drop the item at the position.
abbrev pub permits_item : Platform → Time → Session → Option String → Bool
permits_item platform now s none = true
permits_item platform now s (some name) =
    (permits platform item_drop (action_data s.afk.last_position name) now s).1

-- An action that drops no known item, or one that the player may drop.
abbrev pub MayDrop : Platform → Time → Session → InventoryAction → Type 0
MayDrop platform now s a = permits_item platform now s (dropped_item platform a s) ≡ true

abbrev counting : Session → Factory → Metrics → Session
counting s f m = record s { claims = some (with_metrics m f) }

module _ (platform : Platform) (now : Time) (s : Session) (f : Factory) (m0 : Metrics) where
  abbrev after : String → Metrics → Metrics
  after name m =
      (decide platform.wild (caller_of s) item_drop (action_data s.afk.last_position name) now
        (with_metrics m f)).1

  by_answer :
      (rest : List InventoryAction) (permitted : Bool) (t : Session)
      → let r = until_cancelled (handle_claim_drop_items platform now rest) (
          unless_permitted platform s.afk.last_position "You cannot drop items inside this claim."
            now
            (t, permitted)) in
        r.1 ≡ false → (permitted ≡ true) × ((handle_claim_drop_items platform now rest t).1 ≡ false)
  by_answer rest true t h = (refl, h)
  by_answer rest false t h = absurd cc

  drop_items-MayDrop :
      (actions : List InventoryAction) (m : Metrics)
      → (handle_claim_drop_items platform now actions (counting s f m)).1 ≡ false
      → All (MayDrop platform now (counting s f m0)) actions
  unfolding handle_claim_drop_items session_claim_action_permitted
  drop_items-MayDrop [] m h = tt
  drop_items-MayDrop (a ∷ rest) m h =
      by_item (dropped_item platform a s) refl h (drop_items-MayDrop rest)
    where
      by_item :
          (o : Option String)
          → dropped_item platform a s ≡ o
          → (handle_claim_drop_items platform now (a ∷ rest) (counting s f m)).1 ≡ false
          → ((n : Metrics)
              → (handle_claim_drop_items platform now rest (counting s f n)).1 ≡ false
              → All (MayDrop platform now (counting s f m0)) rest)
          → All (MayDrop platform now (counting s f m0)) (a ∷ rest)
      by_item none e h ih = (rw e refl, ih m (rw (e, handle_claim_drop_items) at h))
      by_item (some name) e h ih =
          let (permitted, later) =
            by_answer rest
              (permits platform item_drop (action_data s.afk.last_position name) now
                (counting s f m)).1
              (counting s f (after name m)) (rw (e, handle_claim_drop_items) at h) in
          (
            rw e (
                session_claim_action_permitted-with_metrics platform.wild (caller_of s) item_drop
                  (action_data s.afk.last_position name) m0 m now f
                ∙ permitted),
            ih (after name m) later,
          )

-- The first of three checks.
first_check :
    (g h : Session → Session × Bool) (r : Session × Bool)
    → (until_cancelled g (until_cancelled h r)).1 ≡ false
    → r.1 ≡ false
first_check g h (s, true) e = e
first_check g h (s, false) e = refl

drops_of_claims :
    (platform : Platform) (now : Time) (packet : InventoryTransaction) (s : Session)
    → (handle_claims platform now packet s).1 ≡ false
    → (handle_claim_drop_items platform now packet.actions s).1 ≡ false
unfolding handle_claims
drops_of_claims platform now packet s h =
    first_check (handle_claim_use_item_on_entity platform now packet)
      (handle_claim_use_item platform now packet)
      (handle_claim_drop_items platform now packet.actions s) h

-- Without a factory everything is permitted.
MayDrop-without_claims :
    (platform : Platform) (now : Time) (s : Session) (actions : List InventoryAction)
    → s.claims ≡ none
    → All (MayDrop platform now s) actions
unfolding session_claim_action_permitted
MayDrop-without_claims platform now s [] e = tt
MayDrop-without_claims platform now s (a ∷ rest) e =
    (each (dropped_item platform a s), MayDrop-without_claims platform now s rest e)
  where
    each : (o : Option String) → permits_item platform now s o ≡ true
    each none = refl
    each (some name) = rw e refl

MayDrop-with_claims :
    (platform : Platform) (from_client : Bool) (now : Time) (elapsed : Duration)
    (packet : InventoryTransaction) (s : Session) (f : Factory)
    → s.claims ≡ some f
    → (handle_inventory_transaction platform from_client now elapsed packet s).1 ≡ forwarded
    → All (MayDrop platform now s) packet.actions
unfolding set_last_drop
MayDrop-with_claims platform from_client now elapsed packet s f e h =
    let (t, (traffic, same), (inside, permitted)) =
      Passed-of-forwarded platform from_client now elapsed packet s h in
    let (d, left) = handle_interaction-dropped_at platform now packet t in
    let s' = dropped_at d (record s { traffic = traffic }) in
    let m = Metrics.packet f.metrics in
    let path : (handle_interaction platform now packet t).0 ≡ counting s' f m =
      left ∙ ap (dropped_at d) same ∙ (λ i.
        dropped_at d
          (metric Metrics.packet (record (record s { traffic = traffic }) { claims = e i }))) in
    let none_cancelled =
      subst (λ u. (handle_claim_drop_items platform now packet.actions u).1 ≡ false) path
        (drops_of_claims platform now packet _ permitted) in
    subst (λ u. All (MayDrop platform now u) packet.actions) (λ i. record s { claims = sym e i })
      (drop_items-MayDrop platform now s' f f.metrics packet.actions m none_cancelled)

-- In a transaction that is forwarded every item that is dropped is one that the registry does not
-- know or that the claims let the player drop, by the session as it was when the packet came.
pub handle_inventory_transaction-MayDrop :
    (platform : Platform) (from_client : Bool) (now : Time) (elapsed : Duration)
    (packet : InventoryTransaction) (s : Session)
    → (handle_inventory_transaction platform from_client now elapsed packet s).1 ≡ forwarded
    → All (MayDrop platform now s) packet.actions
handle_inventory_transaction-MayDrop platform from_client now elapsed packet s h =
    by_claims s.claims refl
  where
    by_claims : (o : Option Factory) → s.claims ≡ o → All (MayDrop platform now s) packet.actions
    by_claims none e = MayDrop-without_claims platform now s packet.actions e
    by_claims (some f) e = MayDrop-with_claims platform from_client now elapsed packet s f e h

-- ===== src/Session/Handlers/AuthInput/Forwarding.antt =====
-- The packet that handler_player_auth_input.go forwards.
use gobds.Base.{
  ◌%◌, ◌≡◌, refl, sym, ap, ◌∙◌, subst, Bool, true, false, not, ◌&&◌, ◌||◌, Option, none, some, List,
  keep, ◌==◌, nat_eq, if◌then◌else◌, if_both, arith,
}
use gobds.Base.Int.{ℤ, int_eq}
use gobds.Clock.{Time, Duration}
use gobds.Claim.Metrics
use gobds.Claim.Metrics.{Metrics}
use gobds.Claim.Factory.{Factory}
use gobds.Policy.{block_break, vec3}
use gobds.Session.State.{Platform, Session, metric, metric_of}
use gobds.Session.Claims.Stability.{with_metrics}
use gobds.Session.Afk.{touch_movement}
use gobds.Session.Positions.{BlockPos, block_pos_to_vec3, permits, outside_border}
use gobds.Session.Handlers.AuthInput.{
  BlockAction, PlayerAuthInput, is_filterable_block_action, denied_action,
  filter_player_auth_input_packet, correct_denied, handle_world_interactions, forward_ping, sample,
  recovered, handle_player_auth_input,
}
use gobds.Session.Handlers.AuthInput.Filtering.{
  refuses, stays, counting, denied_action-counting, filter_actions-FilteredBy,
}
use gobds.Session.Handlers.AuthInput.Safety.{HasClaims, correct_denied-safe}

abbrev pub kept_actions :
    (BlockAction → Bool) → Option (List BlockAction) → Option (List BlockAction)
kept_actions p none = none
kept_actions p (some actions) = some (keep p actions)

abbrev pub forwarded :
    Platform → Time → Session → Option (List BlockAction) → Option (List BlockAction)
forwarded platform now s = kept_actions (stays platform now s)

module _ (platform : Platform) (now : Time) where
  abbrev Forwards : Session → PlayerAuthInput → (Session × Bool) × PlayerAuthInput → Type 0
  Forwards s packet r =
      (r.0.1 ≡ false)
      × (r.1 ≡ record packet { block_actions = forwarded platform now s packet.block_actions })

  by_gamemode :
      (creative : Bool) (s t : Session) (denied : List BlockPos) (packet packet' : PlayerAuthInput)
      → HasClaims t
      → packet' ≡ record packet { block_actions = forwarded platform now s packet.block_actions }
      → Forwards s packet (
          if not creative
          then ((t, false), packet')
          else (correct_denied platform now denied t, packet'))
  by_gamemode true s t denied packet packet' h e = (correct_denied-safe platform now denied t h, e)
  by_gamemode false s t denied packet packet' h e = (refl, e)

  -- What the filter leaves.
  abbrev FilteredPacket :
      Session → PlayerAuthInput → (Session × List BlockPos) × PlayerAuthInput → Type 0
  FilteredPacket s packet r =
      HasClaims r.0.0
      × (r.1 ≡ record packet { block_actions = forwarded platform now s packet.block_actions })

  filter-FilteredPacket :
      (packet : PlayerAuthInput) (o : Option (List BlockAction)) (s : Session) (f : Factory)
      → packet.block_actions ≡ o
      → let t = counting s f f.metrics in
        FilteredPacket t packet (filter_player_auth_input_packet platform now packet t)
  unfolding filter_player_auth_input_packet
  filter-FilteredPacket packet none s f e =
      rw (e, filter_player_auth_input_packet)
        ((f, refl), λ i. record packet { block_actions = e i })
  filter-FilteredPacket packet (some actions) s f e =
      let t = counting s f f.metrics in
      let (m, left, kept) =
        filter_actions-FilteredBy platform now s f f.metrics actions f.metrics in
      rw (e, filter_player_auth_input_packet)
        (
          (with_metrics m f, ap (λ (u : Session). u.claims) left),
          λ i. record packet { block_actions = some (kept i) },
        )

  handle_world_interactions-Forwards :
      (packet : PlayerAuthInput) (s : Session) (f : Factory)
      → s.claims ≡ some f
      → Forwards s packet (handle_world_interactions platform now packet s)
  unfolding handle_world_interactions
  handle_world_interactions-Forwards packet s f e =
      subst (λ t. Forwards t packet (handle_world_interactions platform now packet t))
        (λ i. record s { claims = sym e i })
        (let t = counting s f f.metrics in
          let r = filter_player_auth_input_packet platform now packet t in
          let (h, is) = filter-FilteredPacket packet packet.block_actions s f refl in
          by_gamemode (s.player.gamemode == platform.game_type_creative) t r.0.0 r.0.1 packet r.1 h
            is)

  abbrev read : Session → BlockAction → Bool
  read s a =
      outside_border s.border a.block_pos.x a.block_pos.z
      || not (permits platform block_break (vec3 (block_pos_to_vec3 a.block_pos)) now s).1

  refuses-read : (s : Session) (a : BlockAction) → refuses platform now s a ≡ read s a
  unfolding denied_action
  refuses-read s a = ground arith

  -- Nothing that a sample changes is read by the filter.
  read-sample :
      (ping : ℤ) (packet : PlayerAuthInput) (s : Session) (a : BlockAction)
      → read (sample platform ping now packet s) a ≡ read s a
  unfolding sample forward_ping
  read-sample ping packet s a =
      if_both (λ (t : Session). read t a ≡ read s a) (packet.tick % 20 == 0)
        (if_both
          (λ (u : Session).
            read
              (record u {
                afk = (touch_movement platform packet.position packet.yaw packet.pitch now u.afk).0;
              })
              a
            ≡ read s a)
          (ping == s.last_forwarded_ping) refl refl)
        refl

  refuses-sample :
      (ping : ℤ) (packet : PlayerAuthInput) (s : Session) (a : BlockAction)
      → refuses platform now (sample platform ping now packet s) a ≡ refuses platform now s a
  refuses-sample ping packet s a =
      refuses-read (sample platform ping now packet s) a
      ∙ read-sample ping packet s a
      ∙ sym (refuses-read s a)

  sample-claims :
      (ping : ℤ) (packet : PlayerAuthInput) (s : Session)
      → (sample platform ping now packet s).claims ≡ s.claims
  unfolding sample forward_ping
  sample-claims ping packet s =
      if_both (λ (t : Session). t.claims ≡ s.claims) (packet.tick % 20 == 0)
        (if_both (λ (u : Session). u.claims ≡ s.claims) (ping == s.last_forwarded_ping) refl refl)
        refl

  refuses-packet :
      (s : Session) (f : Factory) (a : BlockAction)
      → s.claims ≡ some f
      → refuses platform now (metric Metrics.packet s) a ≡ refuses platform now s a
  refuses-packet s f a e =
      subst (λ t. refuses platform now (metric Metrics.packet t) a ≡ refuses platform now t a)
        (λ i. record s { claims = sym e i })
        (denied_action-counting platform now s f f.metrics a (Metrics.packet f.metrics)).2

  recovered-calm :
      (elapsed : Duration) (packet : PlayerAuthInput) (r : (Session × Bool) × PlayerAuthInput)
      → r.0.1 ≡ false
      → (recovered elapsed packet r).1 ≡ r.1
  recovered-calm elapsed packet ((s, panics), packet') h = rw h refl

  -- Where the server has a claim factory, the handler forwards the packet with exactly those block
  -- actions, in their order, that do not start, continue or end the breaking of a block which the
  -- border or the claims refuse, by the session as it was when the packet came; and nothing else of
  -- the packet changes.
  pub handle_player_auth_input-forwarded :
      (ping : ℤ) (elapsed : Duration) (packet : PlayerAuthInput) (s : Session) (f : Factory)
      → s.claims ≡ some f
      → (handle_player_auth_input platform ping now elapsed packet s).1
        ≡ record packet { block_actions = forwarded platform now s packet.block_actions }
  unfolding handle_player_auth_input
  handle_player_auth_input-forwarded ping elapsed packet s f e =
      let t = metric Metrics.packet s in
      let u = sample platform ping now packet t in
      let has = sample-claims ping packet t ∙ ap (metric_of Metrics.packet) e in
      let (calm, is) = handle_world_interactions-Forwards packet u _ has in
      recovered-calm elapsed packet (handle_world_interactions platform now packet u) calm
      ∙ is
      ∙ (λ i. record packet {
        block_actions =
            kept_actions
              (λ a. not (
                is_filterable_block_action platform a.action
                && (refuses-sample ping packet t a ∙ refuses-packet s f a e) i))
              packet.block_actions;
      })

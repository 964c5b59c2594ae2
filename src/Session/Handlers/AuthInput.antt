-- ===== src/Session/Handlers/AuthInput.antt =====
-- session/handler_player_auth_input.go: block actions of a player that the border or a claim refuses
-- are taken out of the packet. A panic of the handler forwards the packet as it came.
pub mod Filtering
pub mod Safety
pub mod Forwarding
use gobds.Base.{
  ℕ, ◌%◌, ◌≡◌, Bool, true, false, not, ◌&&◌, ◌||◌, Option, none, some, List, [], ◌∷◌, ◌==◌, nat_eq,
  if◌then◌else◌,
}
use gobds.Base.Int.{ℤ, pos, int_eq}
use gobds.Clock.{Time, Duration, second}
use gobds.Float.{Float}
use gobds.Area.{ChunkPos, chunk_of}
use gobds.Claim.Model.{Vector3}
use gobds.Claim.Metrics
use gobds.Policy.{block_break, vec3}
use gobds.Session.State.{Platform, LevelChunk, level_chunk, ping_report, Session, write, metric}
use gobds.Session.Afk.{touch_movement}
use gobds.Session.Corrective.{allow_corrective, corrective_level_chunk}
use gobds.Session.Positions.{BlockPos, block_pos_to_vec3, permits, outside_border}

-- protocol.PlayerBlockAction
pub record BlockAction : Type 0 where
  pub action : ℤ
  pub block_pos : BlockPos

-- packet.PlayerAuthInput, as far as the handler looks at it.
pub record PlayerAuthInput : Type 0 where
  pub position : Vector3
  pub yaw : Float
  pub pitch : Float
  pub tick : ℕ
  pub block_actions : Option (List BlockAction)

unfoldable pub is_filterable_block_action : Platform → ℤ → Bool
is_filterable_block_action platform a =
    a == platform.player_action_start_break
    || a == platform.player_action_predict_destroy_block
    || a == platform.player_action_continue_destroy_block

-- The function that handleWorldInteractions passes on: whether an action is denied.
unfoldable pub denied_action : Platform → Time → BlockAction → Session → Session × Bool
denied_action platform now a s =
    let (s', permitted) =
      permits platform block_break (vec3 (block_pos_to_vec3 a.block_pos)) now s in
    if outside_border s.border a.block_pos.x a.block_pos.z then (s, true) else (s', not permitted)

-- The session, the actions that stay and the positions of the others.
pub record Filtered : Type 0 where
  pub session : Session
  pub actions : List BlockAction
  pub denied : List BlockPos

abbrev pub kept_first : BlockAction → Filtered → Filtered
kept_first a f = record f { actions = a ∷ f.actions }

abbrev pub denied_first : BlockAction → Filtered → Filtered
denied_first a f = record f { denied = a.block_pos ∷ f.denied }

-- The loop of filterPlayerAuthInputPacket.
unfoldable pub filter_actions : Platform → Time → List BlockAction → Session → Filtered
filter_actions platform now [] s = record { session = s; actions = []; denied = [] }
filter_actions platform now (a ∷ rest) s =
    let (s', is_denied) = denied_action platform now a s in
    let skipped = kept_first a (filter_actions platform now rest s) in
    let kept = kept_first a (filter_actions platform now rest s') in
    let dropped = denied_first a (filter_actions platform now rest s') in
    if not (is_filterable_block_action platform a.action)
    then skipped
    else if not is_denied
    then kept
    else dropped

unfoldable pub filter_player_auth_input_packet :
    Platform → Time → PlayerAuthInput → Session → (Session × List BlockPos) × PlayerAuthInput
filter_player_auth_input_packet platform now packet s = elim packet.block_actions [
  | none ↦ ((s, []), packet)
  | some actions ↦
      let f = filter_actions platform now actions s in
      ((f.session, f.denied), record packet { block_actions = some f.actions })
]

-- s.claimFactory.Metrics().Correction(sent), which panics if there is no factory, and the rest.
abbrev pub corrected : Bool → (Session → Session × Bool) → Session → Session × Bool
corrected sent rest s = elim s.claims [
  | none ↦ (s, true)
  | some c ↦ rest (metric (Metrics.correction sent) s)
]

abbrev pub correct_chunk :
    ChunkPos → Time → (Session → Session × Bool) → Session → Option LevelChunk → Session × Bool
correct_chunk chunk now rest s none = corrected false rest s
correct_chunk chunk now rest s (some correction) =
    let (s', passes) = allow_corrective chunk (pos second) now s in
    if not passes
    then corrected false rest s'
    else corrected true rest (write (level_chunk correction) s')

-- The loop over the denied positions; it says whether it panics.
unfoldable pub correct_denied : Platform → Time → List BlockPos → Session → Session × Bool
correct_denied platform now [] s = (s, false)
correct_denied platform now (p ∷ ps) s =
    let chunk = chunk_of p.x p.z in
    correct_chunk chunk now (correct_denied platform now ps) s
      (corrective_level_chunk platform chunk s.player.dimension s.dimensions)

unfoldable pub handle_world_interactions :
    Platform → Time → PlayerAuthInput → Session → (Session × Bool) × PlayerAuthInput
handle_world_interactions platform now packet s =
    let ((s', denied), packet') = filter_player_auth_input_packet platform now packet s in
    if not (s.player.gamemode == platform.game_type_creative)
    then ((s', false), packet')
    else (correct_denied platform now denied s', packet')

-- ForwardPing, with the latency of the client in milliseconds.
unfoldable pub forward_ping : ℤ → Session → Session
forward_ping ping s =
    if ping == s.last_forwarded_ping
    then s
    else write (ping_report ping) (record s { last_forwarded_ping = ping })

-- What is done at every twentieth tick.
unfoldable pub sample : Platform → ℤ → Time → PlayerAuthInput → Session → Session
sample platform ping now packet s =
    let s' = forward_ping ping s in
    if packet.tick % 20 == 0
    then record s' {
      afk = (touch_movement platform packet.position packet.yaw packet.pitch now s'.afk).0;
    }
    else s

abbrev pub recovered :
    Duration → PlayerAuthInput → (Session × Bool) × PlayerAuthInput → Session × PlayerAuthInput
recovered elapsed original ((s, panics), packet) = (
  metric (Metrics.record_latency elapsed) s,
  if panics then record packet { block_actions = original.block_actions } else packet,
)

-- Handle, with the latency of the client and the time that the handler takes.
unfoldable pub handle_player_auth_input :
    Platform → ℤ → Time → Duration → PlayerAuthInput → Session → Session × PlayerAuthInput
handle_player_auth_input platform ping now elapsed packet s = recovered elapsed packet (
    handle_world_interactions platform now packet
      (sample platform ping now packet (metric Metrics.packet s)))

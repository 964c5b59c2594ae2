-- ===== src/Session/Packets/Authority/Moves.antt =====
-- The input of a player leaves what the server decides (session/handler_player_auth_input.go).
use gobds.Base.{
  refl, Bool, true, false, not, Option, none, some, List, [], ◌∷◌, ◌==◌, ◌%◌, nat_eq, Option-cases,
  inl, inr, if_both,
}
use gobds.Base.Int.{ℤ, pos, int_eq}
use gobds.Clock.{Time, Duration, second}
use gobds.Area.{ChunkPos, chunk_of}
use gobds.Claim.Metrics
use gobds.Session.State.{Platform, Session, LevelChunk, level_chunk, write, metric}
use gobds.Session.Corrective.{allow_corrective}
use gobds.Session.Positions.{BlockPos}
use gobds.Session.Handlers.AuthInput.{
  BlockAction, PlayerAuthInput, Filtered, is_filterable_block_action, denied_action, filter_actions,
  filter_player_auth_input_packet, corrected, correct_chunk, correct_denied,
  handle_world_interactions, forward_ping, sample, handle_player_auth_input,
}
use gobds.Session.Packets.Authority.{
  Keeps, Keeps-refl, Keeps-trans, Kept, kept, after, either, allow_corrective-Keeps,
}

module _ (platform : Platform) (now : Time) where
  denied_action-Kept : (a : BlockAction) (s : Session) → Kept s (denied_action platform now a s)
  unfolding denied_action
  denied_action-Kept a s = either s _ (kept s s true refl) (kept s _ _ refl)

  filter_actions-Keeps :
      (actions : List BlockAction) (s : Session)
      → Keeps s (filter_actions platform now actions s).session
  unfolding filter_actions
  filter_actions-Keeps [] s = Keeps-refl s
  filter_actions-Keeps (a ∷ rest) s =
      let (s', is_denied) = denied_action platform now a s in
      let later = Keeps-trans (denied_action-Kept a s).keeps (filter_actions-Keeps rest s') in
      if_both (λ (f : Filtered). Keeps s f.session)
        (not (is_filterable_block_action platform a.action)) (filter_actions-Keeps rest s)
        (if_both (λ (f : Filtered). Keeps s f.session) (not is_denied) later later)

  filter_packet-Keeps :
      (p : PlayerAuthInput) (s : Session)
      → Keeps s (filter_player_auth_input_packet platform now p s).0.0
  unfolding filter_player_auth_input_packet
  filter_packet-Keeps p s = elim (Option-cases p.block_actions) [
    | inl e ↦ rw (e, filter_player_auth_input_packet) (Keeps-refl s)
    | inr (actions, e) ↦
        let h = filter_actions-Keeps actions s in rw (e, filter_player_auth_input_packet) h
  ]

corrected-Kept :
    (sent : Bool) (rest : Session → Session × Bool) (s : Session)
    → ((t : Session) → Kept t (rest t))
    → Kept s (corrected sent rest s)
corrected-Kept sent rest s keeps = elim (Option-cases s.claims) [
  | inl e ↦ rw (e, corrected) (record { keeps = record { same = refl } })
  | inr (c, e) ↦
      let h : Kept s (rest (metric (Metrics.correction sent) s)) =
        after (record { same = refl }) (keeps _) in
      rw (e, corrected) (record { keeps = record { same = h.keeps.same } })
]

correct_chunk-Kept :
    (chunk : ChunkPos) (now : Time) (rest : Session → Session × Bool) (s : Session)
    (correction : Option LevelChunk)
    → ((t : Session) → Kept t (rest t))
    → Kept s (correct_chunk chunk now rest s correction)
correct_chunk-Kept chunk now rest s none keeps = corrected-Kept false rest s keeps
correct_chunk-Kept chunk now rest s (some correction) keeps =
    let (s', passes) = allow_corrective chunk (pos second) now s in
    let same = allow_corrective-Keeps chunk (pos second) now s in
    either s (not passes) (after same (corrected-Kept false rest s' keeps)) (
      after (record { same = same.same })
        (corrected-Kept true rest (write (level_chunk correction) s') keeps))

correct_denied-Kept :
    (platform : Platform) (now : Time) (ps : List BlockPos) (s : Session)
    → Kept s (correct_denied platform now ps s)
unfolding correct_denied
correct_denied-Kept platform now [] s = kept s s false refl
correct_denied-Kept platform now (p ∷ ps) s =
    correct_chunk-Kept (chunk_of p.x p.z) now (correct_denied platform now ps) s _
      (correct_denied-Kept platform now ps)

handle_world_interactions-Keeps :
    (platform : Platform) (now : Time) (p : PlayerAuthInput) (s : Session)
    → Keeps s (handle_world_interactions platform now p s).0.0
unfolding handle_world_interactions
handle_world_interactions-Keeps platform now p s =
    let ((s', denied), p') = filter_player_auth_input_packet platform now p s in
    let filtered = filter_packet-Keeps platform now p s in
    if_both (λ (r : (Session × Bool) × PlayerAuthInput). Keeps s r.0.0)
      (not (s.player.gamemode == platform.game_type_creative)) filtered
      (Keeps-trans filtered (correct_denied-Kept platform now denied s').keeps)

forward_ping-Keeps : (ping : ℤ) (s : Session) → Keeps s (forward_ping ping s)
unfolding forward_ping
forward_ping-Keeps ping s =
    if_both (Keeps s) (ping == s.last_forwarded_ping) (Keeps-refl s) (record { same = refl })

sample-Keeps :
    (platform : Platform) (ping : ℤ) (now : Time) (p : PlayerAuthInput) (s : Session)
    → Keeps s (sample platform ping now p s)
unfolding sample
sample-Keeps platform ping now p s =
    if_both (Keeps s) (p.tick % 20 == 0) (record { same = (forward_ping-Keeps ping s).same })
      (Keeps-refl s)

pub handle_player_auth_input-Keeps :
    (platform : Platform) (ping : ℤ) (now : Time) (elapsed : Duration) (p : PlayerAuthInput)
    (s : Session)
    → Keeps s (handle_player_auth_input platform ping now elapsed p s).0
unfolding handle_player_auth_input
handle_player_auth_input-Keeps platform ping now elapsed p s =
    let counted = metric Metrics.packet s in
    let before = sample-Keeps platform ping now p counted in
    let later =
      handle_world_interactions-Keeps platform now p (sample platform ping now p counted) in
    record { same = (Keeps-trans before later).same }

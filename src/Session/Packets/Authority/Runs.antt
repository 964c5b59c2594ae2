-- ===== src/Session/Packets/Authority/Runs.antt =====
-- What the packets of a client, one after the other, leave as it is (session/session.go).
use gobds.Base.{
  ◌≡◌, refl, ◌∙◌, String, Bool, true, false, not, ◌||◌, Option, none, some, List, [], ◌∷◌, length,
  ◌==◌, nat_eq, contains, ltb, string_eq,
}
use gobds.Base.Int.{ℤ, int_eq}
use gobds.Clock.{Time}
use gobds.Commands.{Registry}
use gobds.Traffic
use gobds.Traffic.{TrafficState, traffic_chat, traffic_command, traffic_form, traffic_stack}
use gobds.Session.State.{Platform, Session}
use gobds.Session.Handlers.Handling.{Handled, forwarded, cancelled, malformed, failed, panicked}
use gobds.Session.Handlers.Actors.{
  handle_add_actor, handle_add_painting, handle_remove_actor, handle_move_actor,
}
use gobds.Session.Handlers.AvailableCommands.{disabled_commands, handle_available_commands}
use gobds.Session.Handlers.CommandRequest
use gobds.Strings.{byte_length, trim_space}
use gobds.Session.Handlers.CommandRequest.{
  CommandName, named, empty_line, command_name, route_command, by_name, handle_command_request,
}
use gobds.Session.Handlers.ItemStack.{
  StackAction, StackRequest, Validity, valid, drop, refused, touches_dynamic, answer_actions,
  answer_requests, outcome, by_validity, validate_item_stack_request, handle_item_stack_request,
}
use gobds.Session.Handlers.ModalForm.{
  answered, check_response, handle_modal_form_request, handle_modal_form_response,
}
use gobds.Session.Handlers.Player.{
  handle_change_dimension, handle_set_player_game_type, handle_update_player_game_type,
  handle_update_abilities, handle_item_registry,
}
use gobds.Session.Handlers.SubChunk.{handle_sub_chunk}
use gobds.Session.Handlers.Text.{
  Text, too_long, parameters_too_long, handle_client_text, handle_text,
}
use gobds.Session.Packets.{
  Packet, add_actor, add_painting, available_commands, change_dimension, command_request,
  inventory_transaction, item_registry, item_stack_request, level_chunk_at, modal_form_request,
  modal_form_response, move_actor, player_auth_input, remove_actor, set_actor_data,
  set_player_game_type, sub_chunk, text_packet, update_abilities, update_player_game_type,
  without_handler, World, State, Answer, handle, settle, handle_packet,
}
use gobds.Session.Packets.Authority.{Keeps, Keeps-refl, Keeps-trans, Kept, kept, after, either}
use gobds.Session.Packets.Authority.Clicks.{handle_inventory_transaction-Keeps}
use gobds.Session.Packets.Authority.Moves.{handle_player_auth_input-Keeps}

handle_client_text-Kept :
    (platform : Platform) (now : Time) (p : Text) (s : Session)
    → Kept s (handle_client_text platform now p s)
unfolding handle_client_text
handle_client_text-Kept platform now p s =
    let (t, passes) = Traffic.allow platform.refilled traffic_chat now s.traffic in
    let long =
      too_long s p.message || ltb 256 (byte_length p.source_name) || ltb 64 (length p.parameters) in
    either s long (kept s _ _ refl) (
      either s (parameters_too_long s p.parameters) (kept s _ _ refl) (
        either s (trim_space p.message == "") (kept s _ _ refl)
          (either s (not passes) (kept s _ _ refl) (kept s _ _ refl))))

route_command-Kept : (name line : String) (s : Session) → Kept s (route_command name line s)
unfolding route_command
route_command-Kept name line s = either s (name == "") (kept s s forwarded refl) (
    either s (contains disabled_commands name) (kept s s cancelled refl) (
      either s (contains s.command_cache name) (kept s s forwarded refl) (kept s _ cancelled refl)))

by_name-Kept :
    (s : Session) (routed : String → Session × Handled) (n : CommandName)
    → ((name : String) → Kept s (routed name))
    → Kept s (by_name s routed n)
by_name-Kept s routed (named name) keeps = keeps name
by_name-Kept s routed empty_line keeps = kept s _ _ refl
by_name-Kept s routed CommandRequest.too_long keeps = kept s _ _ refl

handle_command_request-Kept :
    (platform : Platform) (now : Time) (line : String) (s : Session)
    → Kept s (handle_command_request platform true now line s)
unfolding handle_command_request
handle_command_request-Kept platform now line s =
    let (t, passes) = Traffic.allow platform.refilled traffic_command now s.traffic in
    let limited = record s { traffic = t } in
    by_name-Kept s _ (command_name line s.traffic.config.max_command_bytes) (λ name.
      either s (not passes) (kept s limited cancelled refl)
        (after (record { same = refl }) (route_command-Kept name line limited)))

answered-Kept :
    (s : Session) (t : TrafficState) (passes : Bool) (o : Option String)
    → Kept s (answered s t passes o)
answered-Kept s t passes (some reason) = kept s _ _ refl
answered-Kept s t passes none = kept s _ _ refl

answer_actions-Kept :
    (platform : Platform) (id : ℤ) (actions : List StackAction) (s : Session) (stops : Bool)
    → Kept s (answer_actions platform id actions (s, stops))
unfolding answer_actions
answer_actions-Kept platform id [] s stops = kept s s stops refl
answer_actions-Kept platform id (a ∷ rest) s stops =
    either s (touches_dynamic platform a)
      (after (record { same = refl }) (answer_actions-Kept platform id rest _ true))
      (answer_actions-Kept platform id rest s stops)

answer_requests-Kept :
    (platform : Platform) (requests : List StackRequest) (s : Session) (stops : Bool)
    → Kept s (answer_requests platform requests (s, stops))
unfolding answer_requests
answer_requests-Kept platform [] s stops = kept s s stops refl
answer_requests-Kept platform (q ∷ rest) s stops =
    let (t, b) = answer_actions platform q.request_id q.actions (s, stops) in
    after (answer_actions-Kept platform q.request_id q.actions s stops).keeps
      (answer_requests-Kept platform rest t b)

by_validity-Kept :
    (v : Validity) (s : Session) (r : Session × Handled) → Kept s r → Kept s (by_validity v s r)
by_validity-Kept valid s r h = h
by_validity-Kept drop s r h = kept s _ _ refl
by_validity-Kept (refused reason) s r h = kept s _ _ refl

outcome-Kept : (s : Session) (r : Session × Bool) → Kept s r → Kept s (outcome r)
outcome-Kept s (t, b) h = record { keeps = h.keeps }

handle_item_stack_request-Kept :
    (platform : Platform) (now : Time) (requests : List StackRequest) (s : Session)
    → Kept s (handle_item_stack_request platform true now requests s)
unfolding handle_item_stack_request
handle_item_stack_request-Kept platform now requests s =
    let (t, passes) = Traffic.allow platform.refilled traffic_stack now s.traffic in
    let limited = record s { traffic = t } in
    by_validity-Kept (validate_item_stack_request s.traffic.config requests) s _ (
      either s (not passes) (kept s limited cancelled refl) (
        outcome-Kept s _
          (after (record { same = refl }) (answer_requests-Kept platform requests limited false))))

-- The session keeps its authority, and the custom commands stay.
pub record Stays (t u : State) : Type 0 where
  pub authority : Keeps t.0 u.0
  pub commands : u.1 ≡ t.1

stays : (s u : Session) (r : Registry) → Keeps s u → Stays (s, r) (u, r)
stays s u r h = record { authority = h; commands = refl }

unchanged : (s : Session) (r : Registry) → Stays (s, r) (s, r)
unchanged s r = stays s s r (Keeps-refl s)

handle-Stays : (w : World) (p : Packet) (t : State) → Stays t (handle w true p t).0.0
unfolding handle handle_add_actor handle_add_painting handle_change_dimension handle_item_registry
    handle_modal_form_request handle_move_actor handle_remove_actor handle_set_player_game_type
    handle_update_abilities handle_update_player_game_type handle_available_commands
    handle_sub_chunk handle_text handle_modal_form_response
handle-Stays w (add_actor p) (s, r) = unchanged s r
handle-Stays w (add_painting p) (s, r) = unchanged s r
handle-Stays w (available_commands p) (s, r) = stays s _ r (record { same = refl })
handle-Stays w (change_dimension d) (s, r) = unchanged s r
handle-Stays w (command_request line) (s, r) =
    stays s _ r (handle_command_request-Kept w.platform w.now line s).keeps
handle-Stays w (inventory_transaction p) (s, r) =
    stays s _ r (handle_inventory_transaction-Keeps w.platform w.now true w.elapsed p s).keeps
handle-Stays w (item_registry items) (s, r) = unchanged s r
handle-Stays w (item_stack_request requests) (s, r) =
    stays s _ r (handle_item_stack_request-Kept w.platform w.now requests s).keeps
handle-Stays w (level_chunk_at position) (s, r) = unchanged s r
handle-Stays w (modal_form_request p) (s, r) = unchanged s r
handle-Stays w (modal_form_response p) (s, r) =
    stays s _ r (answered-Kept s _ _ (check_response w.response_codec s.traffic.config p)).keeps
handle-Stays w (move_actor p) (s, r) = unchanged s r
handle-Stays w (player_auth_input p) (s, r) =
    stays s _ r (handle_player_auth_input-Keeps w.platform w.ping w.now w.elapsed p s)
handle-Stays w (remove_actor id) (s, r) = unchanged s r
handle-Stays w (set_actor_data p) (s, r) = unchanged s r
handle-Stays w (set_player_game_type g) (s, r) = unchanged s r
handle-Stays w (sub_chunk p) (s, r) = stays s _ r (record { same = refl })
handle-Stays w (text_packet p) (s, r) =
    stays s _ r (handle_client_text-Kept w.platform w.now p s).keeps
handle-Stays w (update_abilities id permissions) (s, r) = unchanged s r
handle-Stays w (update_player_game_type g id) (s, r) = unchanged s r
handle-Stays w without_handler (s, r) = unchanged s r

settle-Stays : (t : State) (a : Answer) → Stays t a.0.0 → Stays t (settle a).0
unfolding settle
settle-Stays t ((u, p), forwarded) h = h
settle-Stays t ((u, p), cancelled) h = h
settle-Stays t ((u, p), malformed reason) h = record {
  authority = record { same = h.authority.same };
  commands = h.commands;
}
settle-Stays t ((u, p), failed reason) h = h
settle-Stays t ((u, p), panicked) h = record {
  authority = record { same = h.authority.same };
  commands = h.commands;
}

-- Packets of the client, one after the other, each handled in a world of its own.
pub data ClientRun : State → State → Type 1 where
  done : {t : State} → ClientRun t t
  received :
      {t u : State} (w : World) (p : Packet)
      → ClientRun (handle_packet w true p t).0 u
      → ClientRun t u

-- Whatever packets a client sends, and whatever stands around their handling: the dimension, the game
-- mode and the rank of the player, the entities, the items, the dimensions and the border of its
-- session, and who the player is, are those of before, and so are the custom commands of the server.
pub ClientRun-Stays : {t u : State} → ClientRun t u → Stays t u
unfolding handle_packet
ClientRun-Stays done = record { authority = Keeps-refl _; commands = refl }
ClientRun-Stays (received {t} {u} w p run) =
    let first = settle-Stays t (handle w true p t) (handle-Stays w p t) in
    let later = ClientRun-Stays run in
    record {
      authority = Keeps-trans first.authority later.authority;
      commands = later.commands ∙ first.commands;
    }

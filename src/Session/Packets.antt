-- ===== src/Session/Packets.antt =====
-- handlePacket and registerHandlers of session/session.go: each packet goes to the handler of its kind,
-- and what the handler answers decides whether it is sent on.
pub mod Authority
use gobds.Base.{
  ℕ, String, Bool, true, false, not, Option, none, some, List, [], ◌∷◌, ◌==◌, string_eq,
  if◌then◌else◌,
}
use gobds.Base.Int.{ℤ}
use gobds.Clock.{Time, Duration}
use gobds.Area.{ChunkPos}
use gobds.Commands.{Registry, commands}
use gobds.Forms.{FormCodec}
use gobds.Translations.{MappedTranslations}
use gobds.Traffic
use gobds.Traffic.{traffic_handler}
use gobds.Session.State.{Platform, Session, disconnect, write}
use gobds.Session.Handlers.Handling.{Handled, forwarded, cancelled, malformed, failed, panicked}
use gobds.Session.Handlers.Actors.{
  AddActor, AddPainting, MoveActor, SetActorData, handle_add_actor, handle_add_painting,
  handle_remove_actor, handle_move_actor, handle_set_actor_data,
}
use gobds.Session.Handlers.AuthInput.{PlayerAuthInput, handle_player_auth_input}
use gobds.Session.Handlers.AvailableCommands.{AvailableCommands, handle_available_commands}
use gobds.Session.Handlers.AvailableCommands.Codes.{CommandCodes}
use gobds.Session.Handlers.CommandRequest.{handle_command_request}
use gobds.Session.Handlers.Inventory.{handle_inventory_transaction}
use gobds.Session.Handlers.Inventory.Packet.{InventoryTransaction}
use gobds.Session.Handlers.ItemStack.{StackRequest, handle_item_stack_request}
use gobds.Session.Handlers.ModalForm.{
  ModalFormRequest, ModalFormResponse, ResponseCodec, handle_modal_form_request,
  handle_modal_form_response,
}
use gobds.Session.Handlers.Player.{
  ItemEntry, handle_change_dimension, handle_set_player_game_type, handle_update_player_game_type,
  handle_update_abilities, handle_level_chunk, handle_item_registry,
}
use gobds.Session.Handlers.SubChunk.{handle_sub_chunk}
use gobds.Session.Handlers.SubChunk.Packet.{Codec, SubChunkPacket}
use gobds.Session.Handlers.Text.{Text, TextCodec, handle_text}

-- The kinds of packet that have a handler, and the others.
pub data Packet : Type 0 where
  add_actor : AddActor → Packet
  add_painting : AddPainting → Packet
  available_commands : AvailableCommands → Packet
  change_dimension : ℤ → Packet
  command_request : String → Packet
  inventory_transaction : InventoryTransaction → Packet
  item_registry : List ItemEntry → Packet
  item_stack_request : List StackRequest → Packet
  level_chunk_at : ChunkPos → Packet
  modal_form_request : ModalFormRequest → Packet
  modal_form_response : ModalFormResponse → Packet
  move_actor : MoveActor → Packet
  player_auth_input : PlayerAuthInput → Packet
  remove_actor : ℤ → Packet
  set_actor_data : SetActorData → Packet
  set_player_game_type : ℤ → Packet
  sub_chunk : SubChunkPacket → Packet
  text_packet : Text → Packet
  update_abilities : ℤ → ℤ → Packet
  update_player_game_type : ℤ → ℤ → Packet
  without_handler : Packet

-- What stands around the handling of one packet: the libraries, the texts, the time, how long the
-- handler takes, and the latency of the client.
pub record World : Type 1 where
  pub platform : Platform
  pub command_codes : CommandCodes
  pub codec : Codec
  pub text_codec : TextCodec
  pub form_codec : FormCodec
  pub response_codec : ResponseCodec
  pub translations : MappedTranslations
  pub now : Time
  pub elapsed : Duration
  pub ping : ℤ

-- A session, and the custom commands that all sessions share.
abbrev pub State : Type 0
State = Session × Registry

-- What a handler leaves: the state, the packet as it changed it, and its answer.
abbrev pub Answer : Type 0
Answer = (State × Packet) × Handled

-- A handler that changes the session, and one that answers too.
abbrev pub changes : Packet → Registry → Session → Answer
changes p r s = (((s, r), p), forwarded)

abbrev pub answers : Packet → Registry → Session × Handled → Answer
answers p r (s, o) = (((s, r), p), o)

-- handler.Handle, for the handler that registerHandlers gives the kind of the packet.
unfoldable pub handle : World → Bool → Packet → State → Answer
handle w from_client (add_actor p) (s, r) =
    let (s', p', o) = handle_add_actor w.translations (not from_client) p s in
    (((s', r), add_actor p'), o)
handle w from_client (add_painting p) (s, r) =
    changes (add_painting p) r (handle_add_painting (not from_client) p s)
handle w from_client (available_commands p) (s, r) =
    let (s', p') = handle_available_commands w.command_codes (commands r) p s in
    changes (available_commands p') r s'
handle w from_client (change_dimension d) (s, r) =
    changes (change_dimension d) r (handle_change_dimension (not from_client) d s)
handle w from_client (command_request line) (s, r) =
    answers (command_request line) r (handle_command_request w.platform from_client w.now line s)
handle w from_client (inventory_transaction p) (s, r) =
    answers (inventory_transaction p) r
      (handle_inventory_transaction w.platform from_client w.now w.elapsed p s)
handle w from_client (item_registry items) (s, r) =
    changes (item_registry items) r (handle_item_registry (not from_client) items s)
handle w from_client (item_stack_request requests) (s, r) =
    answers (item_stack_request requests) r
      (handle_item_stack_request w.platform from_client w.now requests s)
handle w from_client (level_chunk_at position) (s, r) =
    answers (level_chunk_at position) r (s, handle_level_chunk position s.border)
handle w from_client (modal_form_request p) (s, r) =
    answers (modal_form_request p) r (handle_modal_form_request w.form_codec (not from_client) p s)
handle w from_client (modal_form_response p) (s, r) =
    answers (modal_form_response p) r
      (handle_modal_form_response w.platform w.response_codec from_client w.now p s)
handle w from_client (move_actor p) (s, r) =
    changes (move_actor p) r (handle_move_actor (not from_client) p s)
handle w from_client (player_auth_input p) (s, r) =
    let (s', p') = handle_player_auth_input w.platform w.ping w.now w.elapsed p s in
    changes (player_auth_input p') r s'
handle w from_client (remove_actor id) (s, r) =
    changes (remove_actor id) r (handle_remove_actor (not from_client) id s)
handle w from_client (set_actor_data p) (s, r) =
    let (p', o) = handle_set_actor_data w.translations p s in (((s, r), set_actor_data p'), o)
handle w from_client (set_player_game_type t) (s, r) =
    changes (set_player_game_type t) r (handle_set_player_game_type (not from_client) t s)
handle w from_client (sub_chunk p) (s, r) =
    let (s', p') = handle_sub_chunk w.codec w.platform (not from_client) w.now w.elapsed p s in
    changes (sub_chunk p') r s'
handle w from_client (text_packet p) (s, r) =
    let (t, o) = handle_text w.platform w.text_codec from_client w.now p (s, r) in
    ((t, text_packet p), o)
handle w from_client (update_abilities id permissions) (s, r) =
    changes (update_abilities id permissions) r
      (handle_update_abilities w.platform (not from_client) id permissions s)
handle w from_client (update_player_game_type t id) (s, r) =
    changes (update_player_game_type t id) r
      (handle_update_player_game_type (not from_client) t id s)
handle w from_client without_handler (s, r) = changes without_handler r s

-- What handlePacket answers: the packet to send, or no packet, or an error.
pub data Verdict : Type 0 where
  sends : Packet → Verdict
  drops : Verdict
  stops : Verdict

abbrev pub dismiss : State → State
dismiss (s, r) = (write (disconnect "Malformed client packet.") s, r)

abbrev pub count_panic : State → State
count_panic (s, r) = (record s { traffic = Traffic.malformed traffic_handler s.traffic }, r)

-- A malformed packet and a panic disconnect the client; another error drops the packet.
unfoldable pub settle : Answer → State × Verdict
settle ((t, p), forwarded) = (t, sends p)
settle ((t, p), cancelled) = (t, drops)
settle ((t, p), malformed reason) = (dismiss t, stops)
settle ((t, p), failed reason) = (t, drops)
settle ((t, p), panicked) = (dismiss (count_panic t), stops)

unfoldable pub handle_packet : World → Bool → Packet → State → State × Verdict
handle_packet w from_client p t = settle (handle w from_client p t)

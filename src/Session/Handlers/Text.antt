-- ===== src/Session/Handlers/Text.antt =====
-- session/handler_text.go: the limits on chat, and the custom commands that the server's scripts send
-- as a text. A text is a sequence of Unicode characters, and its length that of its UTF-8.
pub mod Limits
use gobds.Base.{
  ℕ, String, Bool, true, false, not, ◌||◌, Option, none, some, List, [], ◌∷◌, length, ◌==◌,
  string_eq, ltb, if◌then◌else◌,
}
use gobds.Base.Int.{ℤ, pos, int_eq, ltb_ℤ}
use gobds.Clock.{Time}
use gobds.Strings.{byte_length, trim_space, cut_prefix}
use gobds.Traffic
use gobds.Traffic.{traffic_chat}
use gobds.Commands.{EngineResponseCommand, Registry, load_from}
use gobds.Session.State.{Platform, Session}
use gobds.Session.Handlers.Handling.{Handled, forwarded, cancelled, malformed, failed}

-- packet.Text
pub record Text : Type 0 where
  pub text_type : ℤ
  pub message : String
  pub source_name : String
  pub parameters : List String

-- Code that the server's texts go through: the constant of the protocol, Unmarshal of a message into
-- its raw texts and of the commands, in the order in which a map is iterated, and the writing of the
-- command file, which gives an error or none.
pub record TextCodec : Type 0 where
  pub text_type_object : ℤ
  pub raw_texts : String → Option (List String)
  pub commands : String → Option (List EngineResponseCommand)
  pub store : List EngineResponseCommand → Option String

abbrev count_chat : Session → Session
count_chat s = record s { traffic = Traffic.malformed traffic_chat s.traffic }

abbrev pub too_long : Session → String → Bool
too_long s message = ltb_ℤ s.traffic.config.max_text_bytes (pos (byte_length message))

-- The loop over the parameters: whether one is too long.
unfoldable pub parameters_too_long : Session → List String → Bool
parameters_too_long s [] = false
parameters_too_long s (p ∷ ps) = too_long s p || parameters_too_long s ps

unfoldable pub handle_client_text : Platform → Time → Text → Session → Session × Handled
handle_client_text platform now packet s =
    let (traffic, passes) = Traffic.allow platform.refilled traffic_chat now s.traffic in
    if too_long s packet.message
      || ltb 256 (byte_length packet.source_name)
      || ltb 64 (length packet.parameters)
    then (count_chat s, malformed "text payload exceeds maximum length")
    else if parameters_too_long s packet.parameters
    then (count_chat s, malformed "text parameter exceeds maximum length")
    else if trim_space packet.message == ""
    then (count_chat s, cancelled)
    else if not passes
    then (record s { traffic = traffic }, cancelled)
    else (record s { traffic = traffic }, forwarded)

abbrev pub commands_prefix : String
commands_prefix = "[PROXY_SYSTEM][COMMANDS]="

-- The part from the writing of the file on.
abbrev stored : Option String → List EngineResponseCommand → Registry → Registry × Handled
stored (some e) commands r = (r, failed e)
stored none commands r = (load_from commands r, cancelled)

abbrev load_commands :
    TextCodec → Option (List EngineResponseCommand) → Registry → Registry × Handled
load_commands codec none r = (r, failed "failed to parse commands")
load_commands codec (some commands) r = stored (codec.store commands) commands r

abbrev read_message : TextCodec → Option (List String) → Registry → Registry × Handled
read_message codec none r = (r, failed "failed to parse message")
read_message codec (some []) r = (r, forwarded)
read_message codec (some (message ∷ rest)) r = elim (cut_prefix message commands_prefix) [
  | none ↦ (r, forwarded)
  | some raw ↦ load_commands codec (codec.commands raw) r
]

-- The part of Handle for a packet of the server, which does not change the session.
unfoldable pub handle_server_text : TextCodec → Text → Registry → Registry × Handled
handle_server_text codec packet r =
    if not (packet.text_type == codec.text_type_object)
    then (r, forwarded)
    else read_message codec (codec.raw_texts packet.message) r

-- Handle
unfoldable pub handle_text :
    Platform → TextCodec → Bool → Time → Text → Session × Registry → (Session × Registry) × Handled
handle_text platform codec from_client now packet (s, r) =
    let (s', o) = handle_client_text platform now packet s in
    let (r', p) = handle_server_text codec packet r in
    if from_client then ((s', r), o) else ((s, r'), p)

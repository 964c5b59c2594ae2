-- ===== src/Session/Handlers/CommandRequest.antt =====
-- session/handler_command_request.go: a command of the server goes on, a disabled one is dropped, and
-- any other is sent to the server's scripts as a chat message.
pub mod Routing
use gobds.Base.{
  ℕ, String, Bool, true, false, not, ◌||◌, Option, none, some, List, [], ◌∷◌, contains, ◌==◌,
  string_eq, nat_eq, if◌then◌else◌,
}
use gobds.Base.Int.{ℤ, pos, ltb_ℤ}
use gobds.Clock.{Time}
use gobds.Strings.{byte_length, concat, cut, cut_prefix, to_lower, trim_space, trim_prefix}
use gobds.Traffic
use gobds.Traffic.{traffic_command}
use gobds.Session.State.{Platform, Session, chat_command, write}
use gobds.Session.Handlers.AvailableCommands.{disabled_commands}
use gobds.Session.Handlers.Handling.{Handled, forwarded, cancelled, malformed}

-- What commandName answers: a name, which may be empty, no command at all, or an error.
pub data CommandName : Type 0 where
  named : String → CommandName
  empty_line : CommandName
  too_long : CommandName

-- The text before the first space.
abbrev before_space : String → String
before_space s = elim (cut s " ") [ none ↦ s | some (before, after) ↦ before ]

abbrev name_in : String → CommandName
name_in line = elim (cut_prefix line "/") [
  | none ↦ named ""
  | some rest ↦ named (before_space (to_lower rest))
]

unfoldable pub command_name : String → ℤ → CommandName
command_name line max_bytes =
    let trimmed = trim_space line in
    if ltb_ℤ max_bytes (pos (byte_length line))
    then too_long
    else if trimmed == "" || trimmed == "/"
    then empty_line
    else name_in trimmed

abbrev pub count_command : Session → Session
count_command s = record s { traffic = Traffic.malformed traffic_command s.traffic }

-- The text that the scripts get for a command line.
abbrev pub as_chat : String → String
as_chat line = concat "-" (trim_prefix line "/")

-- The part of Handle after the limits.
unfoldable pub route_command : String → String → Session → Session × Handled
route_command name line s =
    if name == ""
    then (s, forwarded)
    else if contains disabled_commands name
    then (s, cancelled)
    else if contains s.command_cache name
    then (s, forwarded)
    else (write (chat_command (as_chat line)) s, cancelled)

abbrev pub by_name : Session → (String → Session × Handled) → CommandName → Session × Handled
by_name s routed too_long = (count_command s, malformed "command exceeds maximum length")
by_name s routed empty_line = (count_command s, cancelled)
by_name s routed (named name) = routed name

-- Handle, for the line of packet.CommandRequest
unfoldable pub handle_command_request :
    Platform → Bool → Time → String → Session → Session × Handled
handle_command_request platform from_client now line s =
    let (traffic, passes) = Traffic.allow platform.refilled traffic_command now s.traffic in
    let limited = record s { traffic = traffic } in
    if not from_client
    then (s, forwarded)
    else by_name s
        (λ name. if not passes then (limited, cancelled) else route_command name line limited)
        (command_name line s.traffic.config.max_command_bytes)

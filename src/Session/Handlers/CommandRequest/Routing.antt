-- ===== src/Session/Handlers/CommandRequest/Routing.antt =====
-- Where a command of a client goes (session/handler_command_request.go).
use gobds.Base.{
  List, ◌≡◌, ◌≢◌, ◌⊎◌, String, Bool, true, false, not, [], ◌∷◌, ◌++◌, contains, string_eq,
  if◌then◌else◌,
}
use gobds.Traffic
use gobds.Traffic.{TrafficState}
use gobds.Session.State.{Session, Written, chat_command}
use gobds.Session.Handlers.AvailableCommands.{disabled_commands}
use gobds.Session.Handlers.Handling.{Handled, cancelled}
use gobds.Session.Handlers.CommandRequest.{
  CommandName, named, empty_line, too_long, route_command, as_chat, by_name,
}

-- A command of the server, which is not disabled.
abbrev pub IsServerCommand : Session → String → Type 0
IsServerCommand s name =
    (contains disabled_commands name ≡ false) × (contains s.command_cache name ≡ true)

-- A name that is no command of the server's and is not disabled.
abbrev pub IsScriptCommand : Session → String → Type 0
IsScriptCommand s name =
    (name ≢ "")
    × (contains disabled_commands name ≡ false)
    × (contains s.command_cache name ≡ false)

-- The messages to the server, with one chat message more for a command line.
abbrev pub with_chat : String → Session → List Written
with_chat line s = s.written ++ chat_command (as_chat line) ∷ []

-- If P holds, the line is cancelled and one chat message is written for it; else nothing is written.
abbrev RelaysIf : Type 0 → String → Session → Session × Handled → Type 0
RelaysIf P line s r =
    (P × (r.0.written ≡ with_chat line s) × (r.1 ≡ cancelled)) ⊎ ((¬ P) × (r.0.written ≡ s.written))

-- A name that may go on, when the rate allows it.
abbrev pub Passes : Session → Bool → CommandName → Type 0
Passes s passes n =
    (name : String) × (n ≡ named name) × (passes ≡ true) × ((name ≡ "") ⊎ IsServerCommand s name)

-- A name for which the session writes a chat message.
abbrev pub IsRelayed : Session → Bool → CommandName → Type 0
IsRelayed s passes n = (name : String) × (n ≡ named name) × (passes ≡ true) × IsScriptCommand s name

text_of_name : CommandName → String
text_of_name (named name) = name
text_of_name empty_line = ""
text_of_name too_long = ""

module _ (line : String) (s : Session) (t : TrafficState) (passes : Bool) where
  -- The handler, once the name is known and the rate is checked.
  abbrev pub checked : CommandName → Session × Handled
  checked =
      let limited = record s { traffic = t } in
      by_name s
        (λ name. if not passes then (limited, cancelled) else route_command name line limited)

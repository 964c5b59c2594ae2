-- ===== src/Session/Handlers/AvailableCommands/Appending.antt =====
-- The packet of commands with the custom ones (session/handler_available_commands.go).
use gobds.Base.{◌≡◌, List, [], ◌∷◌, ◌++◌, string_eq}
use gobds.Commands.{Command}
use gobds.Session.Handlers.AvailableCommands.Codes.{CommandCodes}
use gobds.Session.Handlers.AvailableCommands.{AvailableCommands, PacketCommand, CommandBuilder}
use gobds.Session.Handlers.AvailableCommands.Growth.{Extends}
use gobds.Session.Handlers.AvailableCommands.Indices.{Fits, IsIndexed}
use gobds.Session.Handlers.AvailableCommands.Aliases.{RefersTo}

-- A step that keeps the maps right as long as the packet fits.
abbrev KeepsIndexed {ℓ} : {A : Type ℓ} → CommandBuilder → CommandBuilder × A → Type 0
KeepsIndexed b r = IsIndexed b → Fits r.0.pkt → IsIndexed r.0

-- From packet p on, one command after the other is appended at the end under its name, by steps that
-- only add to the packet, until it is q; each refers to its aliases.
abbrev pub Appended : AvailableCommands → List Command → AvailableCommands → Type 0
Appended p [] q = p ≡ q
Appended p (c ∷ cs) q =
    (next : AvailableCommands) × (r : PacketCommand) × Extends p next
    × (next.commands ≡ p.commands ++ r ∷ [])
    × (r.name ≡ c.name)
    × (r.description ≡ c.description)
    × RefersTo p q c r.aliases_offset
    × Appended next cs q

module _ (codes : CommandCodes) where
  -- The record of one command, which stands at the end of the packet.
  abbrev Appends : Command → CommandBuilder → CommandBuilder → Type 0
  Appends c b b' =
      (r : PacketCommand) × (b'.pkt.commands ≡ b.pkt.commands ++ r ∷ [])
      × (r.name ≡ c.name)
      × (r.description ≡ c.description)
      × RefersTo b.pkt b'.pkt c r.aliases_offset

-- ===== src/Session/Handlers/Text/Limits.antt =====
-- Which chat messages of a client are passed on (session/handler_text.go).
use gobds.Base.{
  ◌≤◌, ◌≡◌, ◌≢◌, ◌↔◌, refl, String, true, false, List, [], ◌∷◌, length, string_eq, All, arith,
}
use gobds.Base.Int.{pos, ◌≤ℤ◌}
use gobds.Clock.{Time}
use gobds.Strings.{byte_length, trim_space}
use gobds.Traffic
use gobds.Traffic.{traffic_chat}
use gobds.Session.State.{Platform, Session}
use gobds.Session.Handlers.Handling.{forwarded}
use gobds.Session.Handlers.Text.{Text, parameters_too_long, handle_client_text}

abbrev pub IsShort : Session → String → Type 0
IsShort s text = pos (byte_length text) ≤ℤ s.traffic.config.max_text_bytes

-- The message and each parameter are no longer than the limit, the name of the source has 256 bytes at
-- most, there are 64 parameters at most, and the message is not blank.
abbrev pub IsWithin : Session → Text → Type 0
IsWithin s packet =
    IsShort s packet.message
    × (byte_length packet.source_name ≤ 256)
    × (length packet.parameters ≤ 64)
    × All (IsShort s) packet.parameters
    × (trim_space packet.message ≢ "")

parameters-All :
    (s : Session) (ps : List String) → (parameters_too_long s ps ≡ false) ↔ All (IsShort s) ps
unfolding parameters_too_long
parameters-All s [] = (λ h. tt, λ h. refl)
parameters-All s (p ∷ ps) =
    let (there, back) = parameters-All s ps in
    (λ h. (ground arith, there (ground arith)), λ (k, l). let m = back l in ground arith)

-- A chat message of a client is passed on just if it is not blank, it is within the limits and the
-- rate allows it.
pub handle_client_text_iff :
    (platform : Platform) (now : Time) (packet : Text) (s : Session)
    → ((handle_client_text platform now packet s).1 ≡ forwarded) ↔ (
        IsWithin s packet × ((Traffic.allow platform.refilled traffic_chat now s.traffic).1 ≡ true))
unfolding handle_client_text
handle_client_text_iff platform now packet s =
    let (there, back) = parameters-All s packet.parameters in
    (
      λ h. (
        (
          ground arith,
          ground arith,
          ground arith,
          there (ground arith),
          λ e. absurd (ground arith),
        ),
        ground arith,
      ),
      λ ((a, b, c, d, e), f). let k = back d in ground arith,
    )

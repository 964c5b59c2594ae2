-- ===== src/Tests/Packets.antt =====
-- Packets of a client, for the tests of session/session.go and of the handlers of texts, commands and
-- forms.
use gobds.Base.{◌≡◌, ◌↔◌, inl, refl, true, none, some, [], ◌∷◌}
use gobds.Base.Int.{pos}
use gobds.Traffic
use gobds.Traffic.{traffic_chat, traffic_form}
use gobds.Session.Handlers.Handling.{forwarded, malformed}
use gobds.Session.Handlers.ModalForm.{
  ModalFormResponse, ResponseCodec, check_response, handle_modal_form_response,
}
use gobds.Session.Handlers.ModalForm.Limits.{IsAnswer, handle_modal_form_response_iff}
use gobds.Session.Handlers.Text.{Text, handle_client_text}
use gobds.Session.Handlers.Text.Limits.{IsWithin, handle_client_text_iff}
use gobds.Session.Packets.{
  World, State, settle, command_request, modal_form_response, update_abilities, handle,
  handle_packet,
}
use gobds.Session.Packets.Authority.Runs.{done, received, Stays, ClientRun-Stays}
use gobds.Session.Reading.{
  Connections, end_client, opened, stay, step, server_ends, follow_client, end_server,
}
use gobds.Session.Reading.Silence.{Silent, IsDismissed, malformed_packet-Silent}
use gobds.Tests.Commands.{test_codes}
use gobds.Tests.Sessions.{platform, session}
use gobds.Tests.SubChunks.{codec}

abbrev greeting : Text
greeting = record {
  text_type = pos 1;
  message = "hello";
  source_name = "Steve";
  parameters = "there" ∷ [];
}

handle_client_text_iff_example :
    ((handle_client_text platform 6 greeting session).1 ≡ forwarded) ↔ (
      IsWithin session greeting
      × ((Traffic.allow platform.refilled traffic_chat 6 session.traffic).1 ≡ true))
handle_client_text_iff_example = handle_client_text_iff platform 6 greeting session

-- Every text is valid, and an array of three values if it is one.
abbrev responses : ResponseCodec
responses = record { valid = λ text. true; array_length = λ text. some 3 }

abbrev answer : ModalFormResponse
answer = record { response_data = some "[1, 2, 3]"; cancel_reason = none }

handle_modal_form_response_iff_example :
    ((handle_modal_form_response platform responses true 6 answer session).1 ≡ forwarded) ↔ (
      IsAnswer responses session.traffic.config (some "[1, 2, 3]") none
      × ((Traffic.allow platform.refilled traffic_form 6 session.traffic).1 ≡ true))
handle_modal_form_response_iff_example =
    handle_modal_form_response_iff platform responses 6 answer session

abbrev world : World
world = record {
  platform = platform;
  command_codes = test_codes;
  codec = codec;
  text_codec = record {
    text_type_object = pos 9;
    raw_texts = λ text. some [];
    commands = λ text. some [];
    store = λ commands. none;
  };
  form_codec = record { unmarshal = λ text. none; marshal = λ form. none };
  response_codec = responses;
  translations = [];
  now = 6;
  elapsed = pos 1;
  ping = pos 12;
}

-- A client that wants to be an operator, and then sends a command.
abbrev after_abilities : State
after_abilities = (handle_packet world true (update_abilities (pos 1) (pos 2)) (session, [])).0

abbrev after_command : State
after_command = (handle_packet world true (command_request "/op Steve") after_abilities).0

ClientRun-Stays_example : Stays (session, []) after_command
ClientRun-Stays_example = ClientRun-Stays (
    received world (update_abilities (pos 1) (pos 2))
      (received world (command_request "/op Steve") done))

-- An answer to a form that is no answer.
abbrev nothing : ModalFormResponse
nothing = record { response_data = none; cancel_reason = none }

abbrev closed : Connections
closed =
    follow_client (opened (session, []))
      (handle_packet world true (modal_form_response nothing) (session, []))

is_malformed :
    (handle world true (modal_form_response nothing) (session, [])).1
    ≡ malformed "form response has no response or cancellation"
unfolding handle handle_modal_form_response check_response
is_malformed = refl

still_reads : closed.server_reads ≡ true
unfolding follow_client end_client handle_packet settle handle handle_modal_form_response
    check_response
still_reads = refl

-- The loop of the server ends later.
malformed_packet-Silent_example :
    Silent (opened (session, [])) (end_server closed) × IsDismissed closed.state
malformed_packet-Silent_example =
    malformed_packet-Silent world (modal_form_response nothing) (inl (_, is_malformed))
      (step (server_ends still_reads) stay)

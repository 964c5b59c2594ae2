-- ===== src/Session/Handlers/ModalForm.antt =====
-- session/handler_modal_form_request.go and handler_modal_form_response.go: the images of the server's
-- forms, and the limits on the client's answers to them. The JSON library is an argument.
pub mod Limits
use gobds.Base.{
  ℕ, String, Bool, true, false, not, ◌&&◌, ◌||◌, Option, none, some, List, [], ◌∷◌, ◌==◌, string_eq,
  if◌then◌else◌,
}
use gobds.Base.Int.{ℤ, pos, ltb_ℤ}
use gobds.Clock.{Time}
use gobds.Strings.{byte_length, cut_prefix, has_prefix, trim_space}
use gobds.Traffic
use gobds.Traffic.{TrafficState, traffic_form}
use gobds.Traffic.Config.{TrafficConfig}
use gobds.Forms.{ButtonImage, ButtonElement, MenuForm, FormCodec, set_image_url, parse_menu_form}
use gobds.Session.State.{Platform, Session, form_request, write}
use gobds.Session.Handlers.Handling.{Handled, forwarded, cancelled, malformed}

-- packet.ModalFormRequest
pub record ModalFormRequest : Type 0 where
  pub form_id : ℕ
  pub form_data : String

abbrev is_no_image : ButtonImage → Bool
is_no_image img = img.type == "" && img.data' == ""

-- The body of the loop: the element, and whether it is modified.
unfoldable pub set_image : ButtonElement → ButtonElement × Bool
set_image e = elim (cut_prefix e.image.data' "url:") [
  | none ↦ (e, false)
  | some url ↦ if not (is_no_image e.image) then (set_image_url url e, true) else (e, false)
]

unfoldable pub set_images : List ButtonElement → List ButtonElement × Bool
set_images [] = ([], false)
set_images (e ∷ es) =
    let (e', modified) = set_image e in
    let (es', rest) = set_images es in (e' ∷ es', modified || rest)

abbrev sent_form : ℕ → Session → Option String → Session × Handled
sent_form form_id s none = (s, forwarded)
sent_form form_id s (some form_data) = (write (form_request form_id form_data) s, cancelled)

abbrev rewrite_form : FormCodec → ℕ → Session → Option MenuForm → Session × Handled
rewrite_form codec form_id s none = (s, forwarded)
rewrite_form codec form_id s (some form) =
    let (elements, modified) = set_images form.elements in
    if not modified
    then (s, forwarded)
    else sent_form form_id s (codec.marshal (record form { elements = elements }))

-- ModalFormRequestHandler.Handle
unfoldable pub handle_modal_form_request :
    FormCodec → Bool → ModalFormRequest → Session → Session × Handled
handle_modal_form_request codec from_server packet s =
    if not from_server
    then (s, forwarded)
    else rewrite_form codec packet.form_id s (parse_menu_form codec packet.form_data)

-- encoding/json for an answer: whether a text is valid, and the length of an array that it holds.
pub record ResponseCodec : Type 0 where
  pub valid : String → Bool
  pub array_length : String → Option ℕ

abbrev limit_values : TrafficConfig → Option ℕ → Option String
limit_values config none = some "form response array is invalid"
limit_values config (some n) =
    if ltb_ℤ config.max_form_response_values (pos n)
    then some "form response has too many values"
    else none

-- validateFormResponse: the reason of the error, if there is one.
unfoldable pub validate_form_response : ResponseCodec → TrafficConfig → String → Option String
validate_form_response codec config response =
    let trimmed = trim_space response in
    if ltb_ℤ config.max_form_response_bytes (pos (byte_length response))
    then some "form response exceeds maximum length"
    else if trimmed == "" || not (codec.valid trimmed)
    then some "form response is not valid JSON"
    else if not (has_prefix trimmed "[")
    then none
    else limit_values config (codec.array_length trimmed)

-- packet.ModalFormResponse: the answer, or the reason for which the form was closed.
pub record ModalFormResponse : Type 0 where
  pub response_data : Option String
  pub cancel_reason : Option ℕ

-- The two checks before the rate.
unfoldable pub check_response : ResponseCodec → TrafficConfig → ModalFormResponse → Option String
check_response codec config packet = elim packet.response_data [
  | some response ↦ validate_form_response codec config response
  | none ↦ elim packet.cancel_reason [
    | none ↦ some "form response has no response or cancellation"
    | some reason ↦ none
  ]
]

-- What becomes of an answer that has passed the checks, or has failed one, when the rate is checked.
abbrev pub answered : Session → TrafficState → Bool → Option String → Session × Handled
answered s traffic passes (some reason) =
    (record s { traffic = Traffic.malformed traffic_form s.traffic }, malformed reason)
answered s traffic passes none =
    (record s { traffic = traffic }, if not passes then cancelled else forwarded)

-- ModalFormResponseHandler.Handle
unfoldable pub handle_modal_form_response :
    Platform → ResponseCodec → Bool → Time → ModalFormResponse → Session → Session × Handled
handle_modal_form_response platform codec from_client now packet s =
    let (traffic, passes) = Traffic.allow platform.refilled traffic_form now s.traffic in
    if not from_client
    then (s, forwarded)
    else answered s traffic passes (check_response codec s.traffic.config packet)

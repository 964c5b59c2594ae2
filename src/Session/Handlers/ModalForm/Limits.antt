-- ===== src/Session/Handlers/ModalForm/Limits.antt =====
-- Which answers to forms are passed on (session/handler_modal_form_response.go).
use gobds.Base.{
  ℕ, ◌≡◌, ◌≢◌, ◌⊎◌, ◌↔◌, refl, String, Bool, true, false, Option, none, some, string_eq, Bool-cases,
  inl, inr, arith,
}
use gobds.Base.Int.{pos, ◌≤ℤ◌}
use gobds.Clock.{Time}
use gobds.Strings.{byte_length, has_prefix, trim_space}
use gobds.Traffic
use gobds.Traffic.{TrafficState, traffic_form}
use gobds.Traffic.Config.{TrafficConfig}
use gobds.Session.State.{Platform, Session}
use gobds.Session.Handlers.Handling.{forwarded}
use gobds.Session.Handlers.ModalForm.{
  ResponseCodec, ModalFormResponse, limit_values, validate_form_response, check_response, answered,
  handle_modal_form_response,
}

-- No array, or one with no more values than the limit.
abbrev pub HasFewValues : ResponseCodec → TrafficConfig → String → Type 0
HasFewValues codec config text =
    (has_prefix text "[" ≡ false)
    ⊎ ((n : ℕ) × (codec.array_length text ≡ some n) × (pos n ≤ℤ config.max_form_response_values))

-- A text of valid JSON within the limits; or, without a text, a reason for which the form was closed.
abbrev pub IsAnswer : ResponseCodec → TrafficConfig → Option String → Option ℕ → Type 0
IsAnswer codec config none none = ⊥
IsAnswer codec config none (some reason) = Unit {0}
IsAnswer codec config (some text) reason =
    (pos (byte_length text) ≤ℤ config.max_form_response_bytes)
    × (trim_space text ≢ "")
    × (codec.valid (trim_space text) ≡ true)
    × HasFewValues codec config (trim_space text)

module _ (codec : ResponseCodec) (config : TrafficConfig) where
  limit_values_iff :
      (o : Option ℕ)
      → (limit_values config o ≡ none)
        ↔ ((n : ℕ) × (o ≡ some n) × (pos n ≤ℤ config.max_form_response_values))
  limit_values_iff none = (λ h. absurd (cc), λ (n, e, h). absurd (cc))
  limit_values_iff (some n) =
      (λ h. (n, refl, ground arith), λ (m, e, h). let k : n ≡ m = cc in ground arith)

  validate_form_response_iff :
      (text : String) (reason : Option ℕ)
      → (validate_form_response codec config text ≡ none) ↔ IsAnswer codec config (some text) reason
  unfolding validate_form_response
  validate_form_response_iff text reason =
      let (there, back) = limit_values_iff (codec.array_length (trim_space text)) in
      (
        λ h. (
          ground arith,
          λ e. absurd (ground arith),
          ground arith,
          elim (Bool-cases (has_prefix (trim_space text) "[")) [
            | inl t ↦ inr (there (ground arith))
            | inr f ↦ inl f
          ],
        ),
        λ (a, b, c, d). elim d [ inl f ↦ ground arith | inr l ↦ let k = back l in ground arith ],
      )

  check_response_iff :
      (response : Option String) (reason : Option ℕ)
      → (check_response codec config (record { response_data = response; cancel_reason = reason })
          ≡ none)
        ↔ IsAnswer codec config response reason
  unfolding check_response
  check_response_iff none none = (λ h. absurd (cc), λ h. absurd h)
  check_response_iff none (some reason) = (λ h. tt, λ h. refl)
  check_response_iff (some text) reason = validate_form_response_iff text reason

answered-forwarded :
    (s : Session) (t : TrafficState) (passes : Bool) (o : Option String)
    → ((answered s t passes o).1 ≡ forwarded) ↔ ((o ≡ none) × (passes ≡ true))
answered-forwarded s t passes none = (λ h. (refl, ground arith), λ (e, p). ground arith)
answered-forwarded s t passes (some reason) = (λ h. absurd (cc), λ (e, p). absurd (cc))

-- An answer to a form is passed on just if it is a text of valid JSON that is not longer, and as an
-- array holds no more values, than the limits, or else names a reason for which the form was closed;
-- and if the rate allows it.
pub handle_modal_form_response_iff :
    (platform : Platform) (codec : ResponseCodec) (now : Time) (packet : ModalFormResponse)
    (s : Session)
    → ((handle_modal_form_response platform codec true now packet s).1 ≡ forwarded) ↔ (
        IsAnswer codec s.traffic.config packet.response_data packet.cancel_reason
        × ((Traffic.allow platform.refilled traffic_form now s.traffic).1 ≡ true))
unfolding handle_modal_form_response
handle_modal_form_response_iff platform codec now packet s =
    let (t, passes) = Traffic.allow platform.refilled traffic_form now s.traffic in
    let (there, back) =
      check_response_iff codec s.traffic.config packet.response_data packet.cancel_reason in
    let (only, if') =
      answered-forwarded s t passes (check_response codec s.traffic.config packet) in
    (λ h. let (e, p) = only h in (there e, p), λ (a, p). if' (back a, p))

-- ===== src/Tests/Stacks.antt =====
-- Tests of the handler of item stack requests (session/handler_item_stack_request.go).
use gobds.Base.{ℕ_discrete, ◌≡◌, ◌↔◌, refl, true, [], ◌∷◌, List, false}
use gobds.Base.Int.{pos, ℤ-discrete}
use gobds.Session.Handlers.Handling.{forwarded, cancelled}
use gobds.Session.State.{stack_error, write}
use gobds.Session.Handlers.ItemStack.{
  StackRequest, place, other_action, touches_dynamic, handle_item_stack_request,
}
use gobds.Session.Handlers.ItemStack.Limits.{
  IsAcceptable, rate_checked, handle_item_stack_request_iff,
}
use gobds.Tests.Sessions.{platform, session}

-- From one chest to another, and into a bundle.
abbrev move : List StackRequest
move = record { request_id = pos 7; actions = place (pos 7) (pos 12) ∷ other_action ∷ [] } ∷ []

abbrev into_bundle : List StackRequest
into_bundle = record { request_id = pos 8; actions = place (pos 12) (pos 63) ∷ [] } ∷ []

move-is_clean : touches_dynamic platform (place (pos 7) (pos 12)) ≡ false
unfolding touches_dynamic ℤ-discrete ℕ_discrete
move-is_clean = refl

handle_item_stack_request_iff_example :
    (((handle_item_stack_request platform true 6 move session).1 ≡ forwarded)
      ↔ IsAcceptable platform 6 move session)
    × (IsAcceptable platform 6 move session
        → (handle_item_stack_request platform true 6 move session).0
          ≡ (rate_checked platform 6 session).0)
handle_item_stack_request_iff_example = handle_item_stack_request_iff platform 6 move session

into_bundle-is_answered :
    handle_item_stack_request platform false 6 into_bundle session
    ≡ (write (stack_error (pos 8)) session, cancelled)
unfolding handle_item_stack_request gobds.Session.Handlers.ItemStack.answer_requests
    gobds.Session.Handlers.ItemStack.answer_actions touches_dynamic ℤ-discrete ℕ_discrete
into_bundle-is_answered = refl

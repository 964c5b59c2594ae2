-- ===== src/Session/Handlers/ItemStack.antt =====
-- session/handler_item_stack_request.go: the limits on requests for item stacks, and the refusal of
-- dynamic containers.
pub mod Limits
use gobds.Base.{
  ℕ, ◌+◌, ◌≡◌, Bool, true, false, not, ◌&&◌, ◌||◌, List, [], ◌∷◌, length, ◌==◌, nat_eq, String,
  if◌then◌else◌,
}
use gobds.Base.Int.{ℤ, pos, int_eq, ltb_ℤ}
use gobds.Clock.{Time}
use gobds.Traffic
use gobds.Traffic.{traffic_stack}
use gobds.Traffic.Config.{TrafficConfig}
use gobds.Session.State.{Platform, Session, stack_error, write}
use gobds.Session.Handlers.Handling.{Handled, forwarded, cancelled, malformed}

-- The actions that move items between two containers, with the containers' ids.
pub data StackAction : Type 0 where
  place take : ℤ → ℤ → StackAction
  other_action : StackAction

pub record StackRequest : Type 0 where
  pub request_id : ℤ
  pub actions : List StackAction

-- What validateItemStackRequest answers.
pub data Validity : Type 0 where
  valid drop : Validity
  refused : String → Validity

-- Its loop, with the actions of the requests before.
unfoldable pub validate_requests : TrafficConfig → ℕ → List StackRequest → Validity
validate_requests config total [] = valid
validate_requests config total (r ∷ rs) =
    let n = length r.actions in
    let rest = validate_requests config (total + n) rs in
    if n == 0
    then drop
    else if ltb_ℤ config.max_stack_actions (pos n)
    then refused "item stack request has too many actions"
    else if ltb_ℤ config.max_total_stack_actions (pos (total + n))
    then refused "item stack packet has too many total actions"
    else rest

unfoldable pub validate_item_stack_request : TrafficConfig → List StackRequest → Validity
validate_item_stack_request config requests =
    if length requests == 0
    then drop
    else if ltb_ℤ config.max_stack_requests (pos (length requests))
    then refused "item stack packet has too many requests"
    else validate_requests config 0 requests

unfoldable pub touches_dynamic : Platform → StackAction → Bool
touches_dynamic platform (place source destination) =
    source == platform.container_dynamic || destination == platform.container_dynamic
touches_dynamic platform (take source destination) =
    source == platform.container_dynamic || destination == platform.container_dynamic
touches_dynamic platform other_action = false

-- The inner loop of Handle: each action on a dynamic container gets a response, and cancels.
unfoldable pub answer_actions : Platform → ℤ → List StackAction → Session × Bool → Session × Bool
answer_actions platform id [] (s, stops) = (s, stops)
answer_actions platform id (a ∷ rest) (s, stops) =
    let skipped = answer_actions platform id rest (s, stops) in
    let answered = answer_actions platform id rest (write (stack_error id) s, true) in
    if touches_dynamic platform a then answered else skipped

unfoldable pub answer_requests : Platform → List StackRequest → Session × Bool → Session × Bool
answer_requests platform [] r = r
answer_requests platform (q ∷ rest) r =
    answer_requests platform rest (answer_actions platform q.request_id q.actions r)

abbrev pub outcome : Session × Bool → Session × Handled
outcome (s, stops) = (s, if stops then cancelled else forwarded)

abbrev pub counted : Session → Session
counted s = record s { traffic = Traffic.malformed traffic_stack s.traffic }

abbrev pub by_validity : Validity → Session → Session × Handled → Session × Handled
by_validity valid s passed = passed
by_validity drop s passed = (counted s, cancelled)
by_validity (refused reason) s passed = (counted s, malformed reason)

-- Handle, for a packet that comes from the client or from the server.
unfoldable pub handle_item_stack_request :
    Platform → Bool → Time → List StackRequest → Session → Session × Handled
handle_item_stack_request platform from_client now requests s =
    let (traffic, passes) = Traffic.allow platform.refilled traffic_stack now s.traffic in
    let limited = record s { traffic = traffic } in
    if not from_client
    then outcome (answer_requests platform requests (s, false))
    else by_validity (validate_item_stack_request s.traffic.config requests) s (
        if not passes
        then (limited, cancelled)
        else outcome (answer_requests platform requests (limited, false)))

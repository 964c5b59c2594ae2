-- ===== src/Session/Handlers/ItemStack/Limits.antt =====
-- Which requests for item stacks are passed on (session/handler_item_stack_request.go).
use gobds.Base.{
  ℕ, ◌+◌, ◌≤◌, ◌≡◌, ◌↔◌, refl, ap, ◌∙◌, Bool, true, false, not, List, [], ◌∷◌, length, nat_eq, All,
  Bool-cases, inl, inr, arith, if◌then◌else◌,
}
use gobds.Base.Int.{ℤ, pos, ◌≤ℤ◌}
use gobds.Clock.{Time}
use gobds.Traffic
use gobds.Traffic.{traffic_stack}
use gobds.Traffic.Config.{TrafficConfig}
use gobds.Session.State.{Platform, Session, stack_error, write}
use gobds.Session.Handlers.Handling.{forwarded, cancelled}
use gobds.Session.Handlers.ItemStack.{
  StackAction, StackRequest, Validity, valid, drop, refused, validate_requests,
  validate_item_stack_request, touches_dynamic, answer_actions, answer_requests, outcome,
  by_validity, handle_item_stack_request,
}

abbrev pub total_actions : List StackRequest → ℕ
total_actions [] = 0
total_actions (r ∷ rs) = length r.actions + total_actions rs

abbrev pub InRange : TrafficConfig → StackRequest → Type 0
InRange config r = (1 ≤ length r.actions) × (pos (length r.actions) ≤ℤ config.max_stack_actions)

-- Some request, no more than the limit, each with some action, no more than the limit, and no more
-- actions in all than the limit.
abbrev pub IsWithin : TrafficConfig → List StackRequest → Type 0
IsWithin config rs =
    (1 ≤ length rs)
    × (pos (length rs) ≤ℤ config.max_stack_requests)
    × All (InRange config) rs
    × (pos (total_actions rs) ≤ℤ config.max_total_stack_actions)

abbrev pub HasNoDynamic : Platform → StackRequest → Type 0
HasNoDynamic platform r = All (λ a. touches_dynamic platform a ≡ false) r.actions

module _ (config : TrafficConfig) where
  InRange-of-valid :
      (total : ℕ) (r : StackRequest) (rs : List StackRequest)
      → validate_requests config total (r ∷ rs) ≡ valid
      → InRange config r
        × (validate_requests config (total + length r.actions) rs ≡ valid)
        × (pos (total + length r.actions) ≤ℤ config.max_total_stack_actions)
  unfolding validate_requests
  InRange-of-valid total r rs h = ground arith

  valid-of-InRange :
      (total : ℕ) (r : StackRequest) (rs : List StackRequest)
      → InRange config r
      → validate_requests config (total + length r.actions) rs ≡ valid
      → pos (total + length r.actions) ≤ℤ config.max_total_stack_actions
      → validate_requests config total (r ∷ rs) ≡ valid
  unfolding validate_requests
  valid-of-InRange total r rs h k l = ground arith

  rest-of-valid :
      (total : ℕ) (rs : List StackRequest)
      → pos total ≤ℤ config.max_total_stack_actions
      → validate_requests config total rs ≡ valid
      → All (InRange config) rs × (pos (total + total_actions rs) ≤ℤ config.max_total_stack_actions)
  rest-of-valid total [] b h = (tt, omega arith)
  rest-of-valid total (r ∷ rs) b h =
      let (fits, valid', b') = InRange-of-valid total r rs h in
      let (fit, bound) = rest-of-valid (total + length r.actions) rs b' valid' in
      ((fits, fit), omega arith)

  valid-of-rest :
      (total : ℕ) (rs : List StackRequest)
      → All (InRange config) rs
      → pos (total + total_actions rs) ≤ℤ config.max_total_stack_actions
      → validate_requests config total rs ≡ valid
  unfolding validate_requests
  valid-of-rest total [] h b = refl
  valid-of-rest total (r ∷ rs) (fits, fit) b =
      valid-of-InRange total r rs fits
        (valid-of-rest (total + length r.actions) rs fit (omega arith)) (omega arith)

  validate_item_stack_request_iff :
      (rs : List StackRequest)
      → (validate_item_stack_request config rs ≡ valid) ↔ IsWithin config rs
  unfolding validate_item_stack_request
  validate_item_stack_request_iff [] = (λ h. absurd (ground arith), λ w. absurd (omega arith))
  validate_item_stack_request_iff (r ∷ rs) = (
    λ h.
        let (few, each) : (pos (length (r ∷ rs)) ≤ℤ config.max_stack_requests)
            × (validate_requests config 0 (r ∷ rs) ≡ valid) =
          ground arith in
        let (fits, valid', b) = InRange-of-valid 0 r rs each in
        let (fit, bound) = rest-of-valid (0 + length r.actions) rs b valid' in
        (omega arith, few, (fits, fit), omega arith),
    λ w.
        let (some_one, few, each, bound) = w in
        let h = valid-of-rest 0 (r ∷ rs) each (omega arith) in ground arith,
  )

module _ (platform : Platform) where
  NoDynamic-of-actions :
      (id : ℤ) (actions : List StackAction) (r : Session × Bool)
      → (answer_actions platform id actions r).1 ≡ false
      → (r.1 ≡ false) × All (λ a. touches_dynamic platform a ≡ false) actions
  unfolding answer_actions
  NoDynamic-of-actions id [] (s, stops) h = (h, tt)
  NoDynamic-of-actions id (a ∷ rest) (s, stops) h = elim (Bool-cases (touches_dynamic platform a)) [
    | inl e ↦ absurd (
        let (k, all) = NoDynamic-of-actions id rest (write (stack_error id) s, true) (rw e at h) in
        cc)
    | inr e ↦ let (k, all) = NoDynamic-of-actions id rest (s, stops) (rw e at h) in (k, (e, all))
  ]

  actions-of-NoDynamic :
      (id : ℤ) (actions : List StackAction) (r : Session × Bool)
      → All (λ a. touches_dynamic platform a ≡ false) actions
      → answer_actions platform id actions r ≡ r
  unfolding answer_actions
  actions-of-NoDynamic id [] (s, stops) h = refl
  actions-of-NoDynamic id (a ∷ rest) (s, stops) (e, h) =
      rw e (actions-of-NoDynamic id rest (s, stops) h)

  NoDynamic-of-requests :
      (rs : List StackRequest) (r : Session × Bool)
      → (answer_requests platform rs r).1 ≡ false
      → (r.1 ≡ false) × All (HasNoDynamic platform) rs
  unfolding answer_requests
  NoDynamic-of-requests [] r h = (h, tt)
  NoDynamic-of-requests (q ∷ rest) r h =
      let (k, all) = NoDynamic-of-requests rest _ h in
      let (l, none_here) = NoDynamic-of-actions q.request_id q.actions r k in (l, (none_here, all))

  requests-of-NoDynamic :
      (rs : List StackRequest) (r : Session × Bool)
      → All (HasNoDynamic platform) rs
      → answer_requests platform rs r ≡ r
  unfolding answer_requests
  requests-of-NoDynamic [] r h = refl
  requests-of-NoDynamic (q ∷ rest) r (h, hs) =
      ap (answer_requests platform rest) (actions-of-NoDynamic q.request_id q.actions r h)
      ∙ requests-of-NoDynamic rest r hs

-- The session of a packet that has been counted against its limit, and whether it passes.
abbrev pub rate_checked : Platform → Time → Session → Session × Bool
rate_checked platform now s =
    let (traffic, passes) = Traffic.allow platform.refilled traffic_stack now s.traffic in
    (record s { traffic = traffic }, passes)

outcome-eq-forwarded : (r : Session × Bool) → (outcome r).1 ≡ forwarded → r.1 ≡ false
outcome-eq-forwarded (s, true) h = absurd cc
outcome-eq-forwarded (s, false) h = refl

by_steps :
    (v : Validity) (passes : Bool) (s limited : Session) (r : Session × Bool)
    → (by_validity v s (if not passes then (limited, cancelled) else outcome r)).1 ≡ forwarded
    → (v ≡ valid) × (passes ≡ true) × (r.1 ≡ false)
by_steps valid true s limited r h = (refl, refl, outcome-eq-forwarded r h)
by_steps valid false s limited r h = absurd cc
by_steps drop passes s limited r h = absurd cc
by_steps (refused reason) passes s limited r h = absurd cc

-- What it takes for a packet of a client to be passed on.
abbrev pub IsAcceptable : Platform → Time → List StackRequest → Session → Type 0
IsAcceptable platform now rs s =
    IsWithin s.traffic.config rs
    × ((rate_checked platform now s).1 ≡ true)
    × All (HasNoDynamic platform) rs

IsAcceptable-of-forwarded :
    (platform : Platform) (now : Time) (rs : List StackRequest) (s : Session)
    → (handle_item_stack_request platform true now rs s).1 ≡ forwarded
    → IsAcceptable platform now rs s
unfolding handle_item_stack_request
IsAcceptable-of-forwarded platform now rs s h =
    let (limited, passes) = rate_checked platform now s in
    let (is_valid, in_rate, going_on) =
      by_steps (validate_item_stack_request s.traffic.config rs) passes s limited
        (answer_requests platform rs (limited, false)) h in
    (
      (validate_item_stack_request_iff s.traffic.config rs).0 is_valid,
      in_rate,
      (NoDynamic-of-requests platform rs (limited, false) going_on).1,
    )

forwarded-of-IsAcceptable :
    (platform : Platform) (now : Time) (rs : List StackRequest) (s : Session)
    → IsAcceptable platform now rs s
    → handle_item_stack_request platform true now rs s
      ≡ ((rate_checked platform now s).0, forwarded)
unfolding handle_item_stack_request
forwarded-of-IsAcceptable platform now rs s (within, in_rate, clean) =
    rw
      (
        (validate_item_stack_request_iff s.traffic.config rs).1 within,
        in_rate,
        requests-of-NoDynamic platform rs ((rate_checked platform now s).0, false) clean,
      )
      refl

-- A client's packet of item stack requests is passed on if and only if it has some request and each
-- request some action, none of the three limits of the configuration is passed (on requests, on
-- actions in a request, on actions in all), the rate allows it, and no place or take action touches a
-- dynamic container. It then writes nothing: the session changes only by the count against the rate.
pub handle_item_stack_request_iff :
    (platform : Platform) (now : Time) (rs : List StackRequest) (s : Session)
    → (((handle_item_stack_request platform true now rs s).1 ≡ forwarded)
        ↔ IsAcceptable platform now rs s)
      × (IsAcceptable platform now rs s
          → (handle_item_stack_request platform true now rs s).0 ≡ (rate_checked platform now s).0)
handle_item_stack_request_iff platform now rs s = (
  (
    IsAcceptable-of-forwarded platform now rs s,
    λ w. ap (λ r. r.1) (forwarded-of-IsAcceptable platform now rs s w),
  ),
  λ w. ap (λ r. r.0) (forwarded-of-IsAcceptable platform now rs s w),
)

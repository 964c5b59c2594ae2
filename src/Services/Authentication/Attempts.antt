-- ===== src/Services/Authentication/Attempts.antt =====
-- Which answers let a player in (service/authentication/service.go).
use gobds.Base.{
  ℕ, zero, suc, ◌+◌, ◌<◌, ◌≤◌, ◌⊎◌, ◌∙◌, ℕ_discrete, ◌≡◌, ◌≢◌, Option, ◌↔◌, refl, sym, ap, subst,
  Bool, true, false, none, some, ◌==◌, nat_eq, Bool-cases, inl, inr, arith,
}
use gobds.Base.Result.{Result, ok}
use gobds.Services.Authentication.{
  AuthenticationError, request_failed, rate_limited, unexpected_status, Exchange, closed, unmade,
  failure, response, Outcome, done, again, attempt_once, max_retries, unavailable,
  authentication_loop, authentication_of,
}

status-ok :
    (status : ℕ) (b allowed : Bool)
    → attempt_once (response status (some b)) ≡ done (ok allowed)
    → (status ≡ 200) × (b ≡ allowed)
unfolding attempt_once
status-ok status b allowed h = elim (Bool-cases (status == 200)) [
  | inl e ↦ (ground arith, grind arith)
  | inr e ↦ absurd (ground arith)
]

-- The service answers with status 200 and a body that says so.
ok-response :
    (x : Exchange) (allowed : Bool)
    → attempt_once x ≡ done (ok allowed)
    → x ≡ response 200 (some allowed)
unfolding attempt_once
ok-response closed allowed h = absurd (cc)
ok-response unmade allowed h = absurd (cc)
ok-response (failure true) allowed h = absurd (cc)
ok-response (failure false) allowed h = absurd (cc)
ok-response (response status none) allowed h = absurd (grind arith)
ok-response (response status (some b)) allowed h =
    let (e, f) = status-ok status b allowed h in rw (e, f) refl

response-ok :
    (x : Exchange) (allowed : Bool)
    → x ≡ response 200 (some allowed)
    → attempt_once x ≡ done (ok allowed)
unfolding attempt_once ℕ_discrete
response-ok x allowed e = rw (e) refl

Outcome-cases :
    (o : Outcome)
    → ((r : Result AuthenticationError Bool) × (o ≡ done r))
      ⊎ ((e : AuthenticationError) × (o ≡ again e))
Outcome-cases (done r) = inl (r, refl)
Outcome-cases (again e) = inr (e, refl)

-- An attempt that is made again: the client fails with a temporary error, or the service answers with
-- a status that is none of 200, 404 and 410.
abbrev pub IsPassing : Exchange → Type 0
IsPassing x =
    (x ≡ failure true)
    ⊎ ((status : ℕ) × (body : Option Bool) × (x ≡ response status body)
        × (status ≢ 200)
        × (status ≢ 404)
        × (status ≢ 410))

again-response :
    (status : ℕ) (body : Option Bool) (e : AuthenticationError)
    → attempt_once (response status body) ≡ again e
    → (status ≢ 200) × (status ≢ 404) × (status ≢ 410)
unfolding attempt_once
again-response status body e h =
    (λ k. absurd (ground arith), λ k. absurd (ground arith), λ k. absurd (ground arith))

IsPassing-of-again :
    (x : Exchange) (e : AuthenticationError) → attempt_once x ≡ again e → IsPassing x
unfolding attempt_once
IsPassing-of-again closed e h = absurd (cc)
IsPassing-of-again unmade e h = absurd (cc)
IsPassing-of-again (failure true) e h = inl refl
IsPassing-of-again (failure false) e h = absurd (cc)
IsPassing-of-again (response status body) e h =
    let (a, b, c) = again-response status body e h in inr (status, body, refl, a, b, c)

again-of-IsPassing :
    (x : Exchange) → IsPassing x → (e : AuthenticationError) × (attempt_once x ≡ again e)
unfolding attempt_once
again-of-IsPassing x (inl f) = (request_failed, rw (f) refl)
again-of-IsPassing x (inr (status, body, f, a, b, c)) = elim (Bool-cases (status == 429)) [
  | inl k ↦ (rate_limited, rw (f) ground arith)
  | inr k ↦ (unexpected_status status, rw (f) ground arith)
]

-- The service answers at an attempt before the limit, with status 200 and a body that decodes; all the
-- attempts before fail in a way that may pass.
abbrev pub Decides : (ℕ → Exchange) → ℕ → ℕ → Bool → Type 0
Decides env first limit allowed =
    (n : ℕ) × (first ≤ n)
    × (n < limit)
    × (env n ≡ response 200 (some allowed))
    × ((m : ℕ) → first ≤ m → m < n → IsPassing (env m))

module _ (env : ℕ → Exchange) (left attempt : ℕ) (last : AuthenticationError) where
  loop_done :
      {r : Result AuthenticationError Bool}
      → attempt_once (env attempt) ≡ done r
      → authentication_loop env (suc left) attempt last ≡ r
  unfolding authentication_loop
  loop_done e = rw (e, authentication_loop) refl

  loop_again :
      {e' : AuthenticationError}
      → attempt_once (env attempt) ≡ again e'
      → authentication_loop env (suc left) attempt last
        ≡ authentication_loop env left (attempt + 1) e'
  unfolding authentication_loop
  loop_again e = rw (e, authentication_loop) refl

Decides-of-loop :
    (env : ℕ → Exchange) (left attempt : ℕ) (last : AuthenticationError) (allowed : Bool)
    → authentication_loop env left attempt last ≡ ok allowed
    → Decides env attempt (attempt + left) allowed
unfolding authentication_loop
Decides-of-loop env zero attempt last allowed h = absurd (cc)
Decides-of-loop env (suc left) attempt last allowed h =
    elim (Outcome-cases (attempt_once (env attempt))) [
      | inl (r, e) ↦
          let k : r ≡ ok allowed = sym (loop_done env left attempt last e) ∙ h in
          (
            attempt,
            omega arith,
            omega arith,
            ok-response (env attempt) allowed (e ∙ ap done k),
            λ m l g. absurd (omega arith),
          )
      | inr (e', e) ↦
          let (n, low, high, answers, before) =
            Decides-of-loop env left (attempt + 1) e' allowed
              (sym (loop_again env left attempt last e) ∙ h) in
          (
            n,
            omega arith,
            omega arith,
            answers,
            earlier env attempt n (IsPassing-of-again (env attempt) e' e) before,
          )
    ]
  where
    earlier :
        (env : ℕ → Exchange) (first n : ℕ)
        → IsPassing (env first)
        → ((m : ℕ) → first + 1 ≤ m → m < n → IsPassing (env m))
        → (m : ℕ) → first ≤ m
        → m < n
        → IsPassing (env m)
    earlier env first n e before m l g = elim (ℕ_discrete first m) [
      | yes same ↦ subst (λ i. IsPassing (env i)) same e
      | no other ↦ before m (omega arith) g
    ]

loop-of-Decides :
    (env : ℕ → Exchange) (left attempt : ℕ) (last : AuthenticationError) (allowed : Bool)
    → Decides env attempt (attempt + left) allowed
    → authentication_loop env left attempt last ≡ ok allowed
loop-of-Decides env zero attempt last allowed (n, low, high, answers, before) = absurd (omega arith)
loop-of-Decides env (suc left) attempt last allowed (n, low, high, answers, before) =
    elim (ℕ_discrete attempt n) [
      | yes same ↦
          loop_done env left attempt last
            (response-ok (env attempt) allowed (ap env same ∙ answers))
      | no other ↦
          let (e', e) =
            again-of-IsPassing (env attempt) (before attempt (omega arith) (omega arith)) in
          loop_again env left attempt last e
          ∙ loop-of-Decides env left (attempt + 1) e' allowed
              (n, omega arith, omega arith, answers, λ m l g. before m (omega arith) g)
    ]

-- An enabled service gives a decision just if one of its first four attempts brings that decision with
-- status 200, and each attempt before ends with a temporary failure, with status 429, or with a status
-- that the code does not name.
pub authentication_of_iff :
    (env : ℕ → Exchange) (allowed : Bool)
    → (authentication_of env true ≡ ok allowed) ↔ Decides env 0 (max_retries + 1) allowed
unfolding authentication_of
authentication_of_iff env allowed = (
  Decides-of-loop env (max_retries + 1) 0 unavailable allowed,
  loop-of-Decides env (max_retries + 1) 0 unavailable allowed,
)

-- ===== src/Claim/Service/Retries.antt =====
-- The loop of FetchClaims in claim/service.go.
use gobds.Base.{
  ℕ, zero, suc, ◌+◌, ◌≡◌, refl, subst, not, String, Bool, true, false, Option, none, some, List, [],
  ◌==◌, string_eq, nat_eq, if◌then◌else◌, Bool-cases, inl, inr,
}
use gobds.Base.Dict.{Dict}
use gobds.Base.Result.{Result, ok, err}
use gobds.Claim.Model.{PlayerClaim, ResponseModel}
use gobds.Claim.Service.{
  Service, FetchResult, FetchError, Response, Exchange, closed, unmade, failure, response,
  Exchanges, Outcome, done, again, handled_rows, settled, max_retries, unavailable, claims_by_key,
  handle_ok, handle_not_modified, handle_fetch_response, attempt_once, fetch_loop, fetch_claims,
}

-- An error leaves the service as it was, so the next If-Modified-Since header is the same.
abbrev pub KeepsOnError : Service → Service × Result FetchError FetchResult → Type 0
KeepsOnError s (s', ok r) = Unit {0}
KeepsOnError s (s', err e) = s' ≡ s

abbrev OutcomeKeeps : Service → Outcome → Type 0
OutcomeKeeps s (done s' (ok r)) = Unit {0}
OutcomeKeeps s (done s' (err e)) = s' ≡ s
OutcomeKeeps s (again s' e) = s' ≡ s

handled_rows-keeps :
    (s : Service) (r : Response) (rows : Result FetchError (Dict String PlayerClaim))
    → OutcomeKeeps s (settled (handled_rows s r rows))
handled_rows-keeps s r (ok claims) = tt
handled_rows-keeps s r (err e) = refl

handle_ok-keeps :
    (s : Service) (r : Response) (body : Option (List ResponseModel))
    → OutcomeKeeps s (settled (handle_ok s r body))
unfolding handle_ok
handle_ok-keeps s r none = refl
handle_ok-keeps s r (some rows) = handled_rows-keeps s r (claims_by_key rows [])

attempt_once-keeps : (s : Service) (x : Exchange) → OutcomeKeeps s (attempt_once s x)
unfolding attempt_once handle_fetch_response handle_ok handle_not_modified
attempt_once-keeps s closed = refl
attempt_once-keeps s unmade = refl
attempt_once-keeps s (failure true) = refl
attempt_once-keeps s (failure false) = refl
attempt_once-keeps s (response r) = elim (Bool-cases (r.status == 200)) [
  | inl e ↦ rw (e, handle_fetch_response) (handle_ok-keeps s r r.body)
  | inr e ↦ elim (Bool-cases (r.status == 304)) [
    | inl f ↦ rw (e, f, handle_fetch_response) tt
    | inr f ↦ elim (Bool-cases (r.status == 429)) [
      | inl g ↦ rw (e, f, g, handle_fetch_response) refl
      | inr g ↦ rw (e, f, g, handle_fetch_response) refl
    ]
  ]
]

-- The loop from any attempt on.
fetch_loop-KeepsOnError :
    (env : Exchanges) (left attempt : ℕ) (e : FetchError) (s : Service)
    → KeepsOnError s (fetch_loop env left attempt e s)
unfolding fetch_loop
fetch_loop-KeepsOnError env zero attempt e s = refl
fetch_loop-KeepsOnError env (suc left) attempt e s =
    next (fetch_loop-KeepsOnError env left (attempt + 1))
      (attempt_once s (env attempt s.last_modified))
      (attempt_once-keeps s (env attempt s.last_modified))
  where
    next :
        ((e' : FetchError) (s' : Service)
          → KeepsOnError s' (fetch_loop env left (attempt + 1) e' s'))
        → (o : Outcome) → OutcomeKeeps s o
        → KeepsOnError s
            (elim o [ done s' r ↦ (s', r) | again s' e' ↦ fetch_loop env left (attempt + 1) e' s' ])
    next ih (done s' (ok r)) k = tt
    next ih (done s' (err e')) k = k
    next ih (again s' e') k =
        subst (λ t. KeepsOnError t (fetch_loop env left (attempt + 1) e' s')) k (ih e' s')

unless_disabled :
    (s : Service) (b : Bool) (r : FetchResult) (p : Service × Result FetchError FetchResult)
    → KeepsOnError s p
    → KeepsOnError s (if b then (s, ok r) else p)
unless_disabled s true r p k = tt
unless_disabled s false r p k = k

-- A fetch that ends in an error, after all its attempts, has not changed the service.
pub fetch_claims-KeepsOnError :
    (env : Exchanges) (s : Service) → KeepsOnError s (fetch_claims env s)
unfolding fetch_claims
fetch_claims-KeepsOnError env s =
    unless_disabled s (not s.enabled) _ _
      (fetch_loop-KeepsOnError env (max_retries + 1) 0 unavailable s)

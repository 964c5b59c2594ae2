-- ===== src/Services/Authentication.antt =====
-- gobds/service/authentication: whether a player may join, with retries. The HTTP client is an
-- argument: an attempt meets one `Exchange`.
pub mod Attempts
use gobds.Base.{
  ℕ, zero, suc, ◌+◌, Bool, true, false, not, Option, none, some, List, [], ◌∷◌, ◌==◌, nat_eq,
  if◌then◌else◌,
}
use gobds.Base.Result.{Result, ok, err}

pub data AuthenticationError : Type 0 where
  service_closed : AuthenticationError
  no_request : AuthenticationError
  request_failed : AuthenticationError
  record_not_found : AuthenticationError
  record_expired : AuthenticationError
  decode_failed : AuthenticationError
  rate_limited : AuthenticationError
  unexpected_status : ℕ → AuthenticationError
  unavailable : AuthenticationError

-- One attempt: the service is closed, the request cannot be made, the client fails with an error that
-- is temporary or not, or it brings a response with a status and a body, if that decodes.
pub data Exchange : Type 0 where
  closed : Exchange
  unmade : Exchange
  failure : Bool → Exchange
  response : ℕ → Option Bool → Exchange

pub data Outcome : Type 0 where
  done : Result AuthenticationError Bool → Outcome
  again : AuthenticationError → Outcome

abbrev decoded : Option Bool → Result AuthenticationError Bool
decoded none = err decode_failed
decoded (some allowed) = ok allowed

unfoldable pub attempt_once : Exchange → Outcome
attempt_once closed = done (err service_closed)
attempt_once unmade = done (err no_request)
attempt_once (failure true) = again request_failed
attempt_once (failure false) = done (err request_failed)
attempt_once (response status body) =
    if status == 404
    then done (err record_not_found)
    else if status == 410
    then done (err record_expired)
    else if status == 200
    then done (decoded body)
    else if status == 429
    then again rate_limited
    else again (unexpected_status status)

abbrev pub max_retries : ℕ
max_retries = 3

-- The loop, with the attempts that are left, the number of the next one and the last error.
unfoldable pub authentication_loop :
    (ℕ → Exchange) → ℕ → ℕ → AuthenticationError → Result AuthenticationError Bool
authentication_loop env zero attempt last_error = err last_error
authentication_loop env (suc left) attempt last_error = elim (attempt_once (env attempt)) [
  | done r ↦ r
  | again e ↦ authentication_loop env left (attempt + 1) e
]

-- AuthenticationOf, which gives whether the player is allowed.
unfoldable pub authentication_of : (ℕ → Exchange) → Bool → Result AuthenticationError Bool
authentication_of env enabled =
    if not enabled then ok true else authentication_loop env (max_retries + 1) 0 unavailable

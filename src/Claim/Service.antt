-- ===== src/Claim/Service.antt =====
-- claim/service.go: fetching the claims over HTTP, with retries. The HTTP client and the time that
-- passes are not in the repository: `Exchange` is what one attempt meets, and the environment gives
-- one for each attempt and each If-Modified-Since header.
pub mod Retries
use gobds.Base.{
  ℕ, zero, suc, ◌+◌, ◌≡◌, String, Bool, true, false, not, Option, none, some, List, [], ◌∷◌, ◌==◌,
  string_eq, nat_eq, if◌then◌else◌,
}
use gobds.Base.Dict.{Dict, lookup, insert}
use gobds.Base.Result.{Result, ok, err}
use gobds.Claim.Model.{PlayerClaim, ResponseModel}

-- The fields of service.Service that the loop reads; Closed may change between attempts.
pub record Service : Type 0 where
  pub enabled : Bool
  pub last_modified : String

pub record FetchResult : Type 0 where
  pub claims : Dict String PlayerClaim
  pub not_modified : Bool
  pub last_modified : String

pub data FetchError : Type 0 where
  service_closed : FetchError
  no_request : FetchError
  request_failed : FetchError
  decode_failed : FetchError
  duplicate_key : String → FetchError
  rate_limited : FetchError
  unexpected_status : ℕ → FetchError
  unavailable : FetchError

-- A response: its status code, its body if that decodes, and its Last-Modified header or "".
pub record Response : Type 0 where
  pub status : ℕ
  pub body : Option (List ResponseModel)
  pub last_modified : String

-- One attempt: the service is closed, the request cannot be made, the client fails with an error
-- that is temporary or not (service.ErrorIsTemporary), or it brings a response.
pub data Exchange : Type 0 where
  closed : Exchange
  unmade : Exchange
  failure : Bool → Exchange
  response : Response → Exchange

abbrev pub max_retries : ℕ
max_retries = 3

-- `obj[v.Key] = v.Data` for each row, where a key may come once.
unfoldable pub claims_by_key :
    List ResponseModel → Dict String PlayerClaim → Result FetchError (Dict String PlayerClaim)
claims_by_key [] obj = ok obj
claims_by_key (v ∷ vs) obj =
    let rest = claims_by_key vs (insert v.key v.body obj) in
    elim (lookup v.key obj) [ none ↦ rest | some c ↦ err (duplicate_key v.key) ]

-- `if modified := header.Get("last-modified"); modified != "" { s.lastModified = modified }`
abbrev pub updated : String → Service → Service
updated modified s = if modified == "" then s else record s { last_modified = modified }

-- The result of one response: the service, a result or an error, and whether to try again.
pub record Handled : Type 0 where
  pub service : Service
  pub result : Result FetchError FetchResult
  pub retry : Bool

abbrev handled_rows : Service → Response → Result FetchError (Dict String PlayerClaim) → Handled
handled_rows s r (err e) = record { service = s; result = err e; retry = false }
handled_rows s r (ok claims) =
    let s' = updated r.last_modified s in
    record {
      service = s';
      result =
          ok (record { claims = claims; not_modified = false; last_modified = s'.last_modified });
      retry = false;
    }

unfoldable pub handle_ok : Service → Response → Option (List ResponseModel) → Handled
handle_ok s r none = record { service = s; result = err decode_failed; retry = true }
handle_ok s r (some rows) = handled_rows s r (claims_by_key rows [])

unfoldable pub handle_not_modified : Service → Response → Handled
handle_not_modified s r =
    let s' = updated r.last_modified s in
    record {
      service = s';
      result = ok (record { claims = []; not_modified = true; last_modified = s'.last_modified });
      retry = false;
    }

unfoldable pub handle_fetch_response : Service → Response → Handled
handle_fetch_response s r =
    if r.status == 200
    then handle_ok s r r.body
    else if r.status == 304
    then handle_not_modified s r
    else if r.status == 429
    then record { service = s; result = err rate_limited; retry = true }
    else record { service = s; result = err (unexpected_status r.status); retry = true }

-- What the environment does at an attempt, from 0, with an If-Modified-Since header or "".
abbrev pub Exchanges : Type 0
Exchanges = ℕ → String → Exchange

-- An attempt ends the loop, or leaves an error and asks for another.
pub data Outcome : Type 0 where
  done : Service → Result FetchError FetchResult → Outcome
  again : Service → FetchError → Outcome

-- A response that asks for another attempt carries an error.
abbrev retried : Service → Result FetchError FetchResult → Outcome
retried s (ok r) = again s unavailable
retried s (err e) = again s e

abbrev settled : Handled → Outcome
settled h = elim (h.retry) [ true ↦ retried h.service h.result | false ↦ done h.service h.result ]

unfoldable pub attempt_once : Service → Exchange → Outcome
attempt_once s closed = done s (err service_closed)
attempt_once s unmade = done s (err no_request)
attempt_once s (failure true) = again s request_failed
attempt_once s (failure false) = done s (err request_failed)
attempt_once s (response r) = settled (handle_fetch_response s r)

-- The loop, with the attempts that are left, the number of the next one and the last error.
unfoldable pub fetch_loop :
    Exchanges → ℕ → ℕ → FetchError → Service → Service × Result FetchError FetchResult
fetch_loop env zero attempt last_error s = (s, err last_error)
fetch_loop env (suc left) attempt last_error s =
    elim (attempt_once s (env attempt s.last_modified)) [
      | done s' r ↦ (s', r)
      | again s' e ↦ fetch_loop env left (attempt + 1) e s'
    ]

unfoldable pub fetch_claims : Exchanges → Service → Service × Result FetchError FetchResult
fetch_claims env s =
    if not s.enabled
    then (s, ok (record { claims = []; not_modified = false; last_modified = "" }))
    else fetch_loop env (max_retries + 1) 0 unavailable s

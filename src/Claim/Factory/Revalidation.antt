-- ===== src/Claim/Factory/Revalidation.antt =====
-- A 304 that follows an answer which Fetch of claim/factory.go could not use: claim/service.go has
-- kept the Last-Modified header of that answer.
use gobds.Base.{
  ◌≡◌, ◌≢◌, refl, ap, ◌∙◌, String, true, false, Option, some, List, [], string_eq, nat_eq, arith,
  if_on_false, not-true,
}
use gobds.Base.Int.{ℤ}
use gobds.Base.Dict.{Dict}
use gobds.Base.Result.{Result, ok, err}
use gobds.Clock.{Time}
use gobds.Float.{Float}
use gobds.Claim.Model.{PlayerClaim, ResponseModel}
use gobds.Claim.Status.{ready, invalid}
use gobds.Claim.Metrics
use gobds.Claim.Metrics.{add_uint64}
use gobds.Claim.Service.{
  Service, FetchResult, FetchError, Response, Exchange, response, Exchanges, done, claims_by_key,
  handle_ok, handle_not_modified, handle_fetch_response, attempt_once, fetch_loop, fetch_claims,
}
use gobds.Claim.Snapshot.Validate.{BuildError}
use gobds.Claim.Snapshot.Build.{Snapshot, build_snapshot}
use gobds.Claim.Factory.{
  Factory, building, failed, replace_by, revalidate_from, revalidate, replace, settle, fetch,
}

fetch_claims-done :
    (env : Exchanges) (x : Exchange) (s s' : Service) (r : Result FetchError FetchResult)
    → s.enabled ≡ true
    → env 0 s.last_modified ≡ x
    → attempt_once s x ≡ done s' r
    → fetch_claims env s ≡ (s', r)
unfolding fetch_claims fetch_loop
fetch_claims-done env x s s' r h a e = ground arith

fetch-settle :
    (wild : Float → ℤ) (env : Exchanges) (now : Time) (f : Factory) (s : Service)
    (r : Result FetchError FetchResult)
    → f.service.enabled ≡ true
    → fetch_claims env f.service ≡ (s, r)
    → fetch wild env now f
      ≡ settle wild now (record f { service = s; metrics = Metrics.refresh_attempt f.metrics }) r
unfolding fetch
fetch-settle wild env now f s r h e =
    if_on_false
      (λ y.
        y
        ≡ settle wild now (record f { service = s; metrics = Metrics.refresh_attempt f.metrics }) r)
      _ (not-true h)
      (ap
        (λ p.
          settle wild now (record f { service = p.0; metrics = Metrics.refresh_attempt f.metrics })
            p.1)
        e)

attempt_once-ok :
    (s : Service) (r : Response) (rows : List ResponseModel) (claims : Dict String PlayerClaim)
    → r.status ≡ 200
    → r.body ≡ some rows
    → claims_by_key rows [] ≡ ok claims
    → r.last_modified ≢ ""
    → attempt_once s (response r)
      ≡ done
          (record s { last_modified = r.last_modified })
          (ok (record { claims = claims; not_modified = false; last_modified = r.last_modified }))
unfolding attempt_once handle_fetch_response handle_ok
attempt_once-ok s r rows claims status body keyed m = ground arith

attempt_once-not_modified :
    (s : Service) (r : Response)
    → r.status ≡ 304
    → r.last_modified ≡ ""
    → attempt_once s (response r)
      ≡ done s (ok (record { claims = []; not_modified = true; last_modified = s.last_modified }))
unfolding attempt_once handle_fetch_response handle_not_modified
attempt_once-not_modified s r status m = ground arith

revalidate_from-some :
    (now : Time) (f : Factory) (s : Option Snapshot) (old : Snapshot)
    → s ≡ some old
    → let f' = (revalidate_from now f s).0 in
      (f'.failure_status ≡ ready)
      × (f'.snapshot
          ≡ some (record old { generation = add_uint64 f.generation 1; fetched_at = now }))
revalidate_from-some now f s old h = rw h (refl, refl)

-- The refresh that meets an answer from which no snapshot can be built.
module _ (wild : Float → ℤ) (env : Exchanges) (now : Time) (f : Factory) (r : Response)
    (rows : List ResponseModel) (claims : Dict String PlayerClaim) (e : BuildError)
    (enabled : f.service.enabled ≡ true) (answers : env 0 f.service.last_modified ≡ response r)
    (status : r.status ≡ 200) (body : r.body ≡ some rows)
    (keyed : claims_by_key rows [] ≡ ok claims) (dated : r.last_modified ≢ "")
    (invalid_claims : build_snapshot wild claims (add_uint64 f.generation 1) now ≡ err e) where
  abbrev after_invalid : Factory
  after_invalid = failed invalid (record f {
    service = record (f.service) { last_modified = r.last_modified };
    metrics = Metrics.refresh_attempt f.metrics;
    generation = add_uint64 f.generation 1;
  })

  fetch-invalid : fetch wild env now f ≡ (after_invalid, err (building e))
  unfolding replace
  fetch-invalid =
      fetch-settle wild env now f _ _ enabled (
        fetch_claims-done env _ f.service _ _ enabled answers
          (attempt_once-ok f.service r rows claims status body keyed dated))
      ∙ ap
          (replace_by (record after_invalid {
            failure_status = f.failure_status;
            metrics = Metrics.refresh_attempt f.metrics;
          }))
          invalid_claims

  -- If the claims of an answer are refused, and the service answers the next request, which sends
  -- the Last-Modified header of the refused answer, with 304, then that refresh succeeds and dates the
  -- old snapshot anew, though the service has other claims since.
  pub fetch_revalidates_outdated :
      (env' : Exchanges) (now' : Time) (r' : Response) (old : Snapshot)
      → f.snapshot ≡ some old
      → env' 0 r.last_modified ≡ response r'
      → r'.status ≡ 304
      → r'.last_modified ≡ ""
      → let f' = (fetch wild env' now' (fetch wild env now f).0).0 in
        (f'.failure_status ≡ ready)
        × (f'.snapshot
            ≡ some (record old {
              generation = add_uint64 (add_uint64 f.generation 1) 1;
              fetched_at = now';
            }))
  unfolding revalidate
  fetch_revalidates_outdated env' now' r' old published answers' status' same =
      rw
        (
          ap (λ p. p.0) fetch-invalid,
          fetch-settle wild env' now' after_invalid _ _ enabled (
              fetch_claims-done env' _ after_invalid.service _ _ enabled answers'
                (attempt_once-not_modified after_invalid.service r' status' same)),
        )
        (revalidate_from-some now'
          (record after_invalid { metrics = Metrics.refresh_attempt after_invalid.metrics })
          f.snapshot old published)

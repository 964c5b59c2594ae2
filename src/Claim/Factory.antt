-- ===== src/Claim/Factory.antt =====
-- claim/factory.go: the published snapshot, and its refresh.
pub mod Freshness
pub mod Refresh
pub mod Revalidation
use gobds.Base.{
  ℕ, ◌+◌, ◌*◌, ◌≡◌, String, Bool, true, false, not, Option, none, some, List, [], ◌∷◌, ◌==◌,
  if◌then◌else◌,
}
use gobds.Base.Int.{ℤ, pos, ltb_ℤ}
use gobds.Base.Dict.{Dict}
use gobds.Base.Result.{Result, ok, err}
use gobds.Clock.{Time, Duration, second}
use gobds.Float.{Float}
use gobds.Claim.Model.{PlayerClaim}
use gobds.Claim.Status.{
  QueryStatus, ready, missing, stale, unsupported, invalid, refresh_failed, status_eq,
}
use gobds.Claim.Snapshot.Validate.{BuildError}
use gobds.Claim.Snapshot.Build.{Snapshot, build_snapshot, supported, age}
use gobds.Claim.Metrics
use gobds.Claim.Metrics.{Metrics, new_metrics, add_uint64}
use gobds.Claim.Service.{Service, FetchResult, FetchError, Exchanges, fetch_claims}

abbrev pub default_poll_interval : Duration
default_poll_interval = pos (15 * second)

abbrev pub default_max_snapshot_age : Duration
default_max_snapshot_age = pos (45 * second)

-- The lock is held by Fetch from its start to its end, so one fetch is one step of the state.
pub record Factory : Type 0 where
  pub service : Service
  pub snapshot : Option Snapshot
  pub generation : ℕ
  pub failure_status : QueryStatus
  pub poll_interval : Duration
  pub max_snapshot_age : Duration
  pub metrics : Metrics

unfoldable pub new_factory : Bool → String → Duration → Duration → Factory
new_factory enabled server poll_interval max_snapshot_age = record {
  service = record { enabled = enabled; last_modified = "" };
  snapshot = none;
  generation = 0;
  failure_status = ready;
  poll_interval = poll_interval;
  max_snapshot_age = max_snapshot_age;
  metrics = new_metrics server;
}

-- A recorded failure, or what is said where there is none.
abbrev failure_or : QueryStatus → QueryStatus → QueryStatus
failure_or failure default = if not (failure == ready) then failure else default

abbrev status_of : Snapshot → Factory → Time → QueryStatus
status_of s f now =
    if not (supported (some s))
    then unsupported
    else if ltb_ℤ f.max_snapshot_age (age (some s) now)
    then failure_or f.failure_status stale
    else ready

-- Snapshot(now): the snapshot with the status of a query.
unfoldable pub query : Factory → Time → Option Snapshot × QueryStatus
query f now = elim f.snapshot [
  | none ↦ (none, failure_or f.failure_status missing)
  | some s ↦ (some s, status_of s f now)
]

pub data RefreshError : Type 0 where
  fetching : FetchError → RefreshError
  not_modified_without_snapshot : RefreshError
  building : BuildError → RefreshError

abbrev failed : QueryStatus → Factory → Factory
failed status f = record f { failure_status = status; metrics = Metrics.refresh_failed f.metrics }

abbrev published : Snapshot → Factory → Factory
published s f = record f {
  snapshot = some s;
  failure_status = ready;
  metrics = Metrics.refresh_succeeded f.metrics;
}

abbrev revalidate_from : Time → Factory → Option Snapshot → Factory × Result RefreshError (Unit {0})
revalidate_from now f none = (failed refresh_failed f, err not_modified_without_snapshot)
revalidate_from now f (some current) =
    let generation = add_uint64 f.generation 1 in
    (
      published (record current { generation = generation; fetched_at = now })
          (record f { generation = generation }),
      ok tt,
    )

-- The rest of Fetch after a 304: the snapshot is dated anew.
unfoldable pub revalidate : Time → Factory → Factory × Result RefreshError (Unit {0})
revalidate now f = revalidate_from now f f.snapshot

abbrev replace_by : Factory → Result BuildError Snapshot → Factory × Result RefreshError (Unit {0})
replace_by f (err e) = (failed invalid f, err (building e))
replace_by f (ok next) = (published next f, ok tt)

-- The rest of Fetch after a 200: a snapshot is built, and published if it is valid.
unfoldable pub replace :
    (Float → ℤ)
    → Dict String PlayerClaim
    → Time
    → Factory
    → Factory × Result RefreshError (Unit {0})
replace wild claims now f =
    let f' = record f { generation = add_uint64 f.generation 1 } in
    replace_by f' (build_snapshot wild claims f'.generation now)

abbrev settle :
    (Float → ℤ)
    → Time
    → Factory
    → Result FetchError FetchResult
    → Factory × Result RefreshError (Unit {0})
settle wild now f (err e) = (failed refresh_failed f, err (fetching e))
settle wild now f (ok r) = if r.not_modified then revalidate now f else replace wild r.claims now f

-- Fetch(), with what the environment does and the time at which the answer is there.
unfoldable pub fetch :
    (Float → ℤ) → Exchanges → Time → Factory → Factory × Result RefreshError (Unit {0})
fetch wild env now f =
    let (service, result) = fetch_claims env f.service in
    let attempted = record f { service = service; metrics = Metrics.refresh_attempt f.metrics } in
    if not f.service.enabled then (f, ok tt) else settle wild now attempted result

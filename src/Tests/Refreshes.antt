-- ===== src/Tests/Refreshes.antt =====
-- Tests of the refresh (claim/factory.go, claim/service.go, claim/metrics.go).
use gobds.Base.{
  ℕ, Bool, ◌<◌, ◌≤◌, ◌⊎◌, refuse_text, ◌≡◌, ◌≢◌, refl, ◌↔◌, true, false, none, some, List, [], ◌∷◌,
  string_eq, nat_eq,
}
use gobds.Base.Int.{pos}
use gobds.Base.Dict.{lookup, insert}
use gobds.Base.Result.{err}
use gobds.Claim.Model.{PlayerClaim, ResponseModel}
use gobds.Claim.Status.{ready}
use gobds.Claim.Metrics.{metric_actions, new_metrics, add_uint64}
use gobds.Claim.Metrics.Balance.{record_all, Counts, record_all-Counts}
use gobds.Claim.Service.{Response, Exchange, response, failure, Exchanges, fetch_claims}
use gobds.Claim.Service.Retries.{KeepsOnError, fetch_claims-KeepsOnError}
use gobds.Claim.Snapshot.Build.{Snapshot, build_snapshot}
use gobds.Claim.Snapshot.Validate.{missing_id_or_owner}
use gobds.Claim.Factory.{new_factory, query, fetch}
use gobds.Claim.Factory.Freshness.{IsFresh, query_ready_iff}
use gobds.Claim.Factory.Refresh.{
  Reported, fetch-Reported, IsSound, OnSnapshot, run_fetches, run_fetches-IsSound,
}
use gobds.Claim.Factory.Revalidation.{fetch_revalidates_outdated}
use gobds.Tests.{zero_of, home, home_snapshot, home_factory}

-- The service answers every request with one claim.
abbrev answer : Response
answer = record {
  status = 200;
  body = some (record { key = "home"; body = home } ∷ []);
  last_modified = "Tue";
}

abbrev answering : Exchanges
answering attempt header = response answer

-- The client fails for a moment at every attempt.
abbrev failing : Exchanges
failing attempt header = failure true

query_ready_iff_example :
    ((query home_factory 6).1 ≡ ready)
    ↔ ((s : Snapshot) × IsFresh home_factory 6 s × ((query home_factory 6).0 ≡ some s))
query_ready_iff_example = query_ready_iff home_factory 6

fetch-Reported_example : Reported home_factory (fetch zero_of failing 9 home_factory)
fetch-Reported_example = fetch-Reported zero_of failing 9 home_factory refl

run_fetches-IsSound_example :
    OnSnapshot
      (IsSound zero_of)
      (run_fetches zero_of
        ((answering, 9) ∷ (failing, 12) ∷ [])
        (new_factory true "survival" (pos 15) (pos 45))).snapshot
run_fetches-IsSound_example =
    run_fetches-IsSound zero_of true "survival" (pos 15) (pos 45)
      ((answering, 9) ∷ (failing, 12) ∷ [])

fetch_claims-KeepsOnError_example :
    KeepsOnError home_factory.service (fetch_claims failing home_factory.service)
fetch_claims-KeepsOnError_example = fetch_claims-KeepsOnError failing home_factory.service

-- Two denied decisions on action 3 and one that is forwarded, one on action 8, and one that has no
-- counters.
abbrev decisions : List (ℕ × Bool)
decisions = (3, false) ∷ (8, true) ∷ (3, true) ∷ (12, true) ∷ (3, false) ∷ []

record_all-Counts_example :
    let m = record_all decisions (new_metrics "survival") in
    ((3 < metric_actions) × Counts 3 decisions m)
    ⊎ ((metric_actions ≤ 3) × (m.forwarded 3 ≡ 0) × (m.denied 3 ≡ 0) × (m.seen 3 ≡ 0))
record_all-Counts_example = record_all-Counts "survival" decisions 3

-- A claim without an owner, from which no snapshot is built.
abbrev ownerless : PlayerClaim
ownerless = record home { owner_xuid = "" }

abbrev refused_rows : List ResponseModel
refused_rows = record { key = "home"; body = ownerless } ∷ []

abbrev refused : Response
refused = record { status = 200; body = some refused_rows; last_modified = "Tue" }

abbrev refusing : Exchanges
refusing attempt header = response refused

abbrev unchanged : Response
unchanged = record { status = 304; body = none; last_modified = "" }

abbrev unchanging : Exchanges
unchanging attempt header = response unchanged

refused-dated : refused.last_modified ≢ ""
unfolding string_eq
refused-dated h = refuse_text "Tue" "" refl h

refused-invalid :
    build_snapshot zero_of (("home", ownerless) ∷ []) (add_uint64 1 1) 9
    ≡ err (missing_id_or_owner "home")
unfolding build_snapshot gobds.Claim.Snapshot.Build.collect_claims
    gobds.Claim.Snapshot.Validate.clone_and_validate_claim string_eq
refused-invalid = refl

fetch_revalidates_outdated_example :
    let f' = (fetch zero_of unchanging 12 (fetch zero_of refusing 9 home_factory).0).0 in
    (f'.failure_status ≡ ready)
    × (f'.snapshot
        ≡ some
            (record home_snapshot { generation = add_uint64 (add_uint64 1 1) 1; fetched_at = 12 }))
unfolding gobds.Claim.Service.claims_by_key lookup insert
fetch_revalidates_outdated_example =
    fetch_revalidates_outdated zero_of refusing 9 home_factory refused refused_rows
      (("home", ownerless) ∷ []) (missing_id_or_owner "home") refl refl refl refl refl refused-dated
      refused-invalid unchanging 12 unchanged home_snapshot refl refl refl refl

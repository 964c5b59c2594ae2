-- ===== src/Claim/Factory/Refresh.antt =====
-- What a refresh of claim/factory.go keeps and changes.
use gobds.Base.{
  ℕ, ◌+◌, ◌%◌, arith, ◌≡◌, ◌≢◌, refl, subst, String, Bool, true, false, not, ◌&&◌, Option, none,
  some, List, [], ◌∷◌, ◌==◌, string_eq, keep, if◌then◌else◌, if_both, if_on_false, not-true, nat_eq,
  ℕ_discrete,
}
use gobds.Base.Int.{ℤ}
use gobds.Base.Dict.{Dict}
use gobds.Base.Result.{Result, ok, err, >>=-eq-ok, ok-injective}
use gobds.Clock.{Time, Duration}
use gobds.Float.{Float}
use gobds.Geometry.{claim_contains}
use gobds.Claim.Model.{PlayerClaim}
use gobds.Claim.Status.{ready, status_eq}
use gobds.Claim.Metrics
use gobds.Claim.Metrics.{Metrics, add_uint64, uint64_mod}
use gobds.Claim.Service.{FetchResult, FetchError, Exchanges, fetch_claims}
use gobds.Claim.Snapshot.Validate.{BuildError}
use gobds.Claim.Snapshot.Build.{
  Snapshot, build_snapshot, candidates, supported, collect_claims, no_cells,
}
use gobds.Claim.Snapshot.Index.{index_claims}
use gobds.Claim.Snapshot.Candidates.{keep-candidates}
use gobds.Claim.Factory.{
  Factory, RefreshError, new_factory, revalidate_from, revalidate, replace_by, replace, settle,
  fetch,
}

-- The three counters of refreshes, as numbers modulo 2^64: the attempts go up by one, and the
-- successes and the failures by what is given.
abbrev pub Counted : ℕ → ℕ → Metrics → Metrics → Type 0
Counted succeeded failed before after =
    (after.refresh_attempts ≡ (before.refresh_attempts + 1) % uint64_mod)
    × (after.refresh_success % uint64_mod ≡ (before.refresh_success + succeeded) % uint64_mod)
    × (after.refresh_failure % uint64_mod ≡ (before.refresh_failure + failed) % uint64_mod)

-- What a refresh reports and what it leaves.
abbrev pub Reported : Factory → Factory × Result RefreshError (Unit {0}) → Type 0
Reported f (f', ok u) = (f'.failure_status ≡ ready) × Counted 1 0 f.metrics f'.metrics
Reported f (f', err e) =
    (f'.snapshot ≡ f.snapshot) × (f'.failure_status ≢ ready) × Counted 0 1 f.metrics f'.metrics

refresh_succeeded-Counted :
    (m : Metrics) → Counted 1 0 m (Metrics.refresh_succeeded (Metrics.refresh_attempt m))
unfolding Metrics.refresh_succeeded Metrics.refresh_attempt add_uint64
refresh_succeeded-Counted m = (refl, omega arith, omega arith)

refresh_failed-Counted :
    (m : Metrics) → Counted 0 1 m (Metrics.refresh_failed (Metrics.refresh_attempt m))
unfolding Metrics.refresh_failed Metrics.refresh_attempt add_uint64
refresh_failed-Counted m = (refl, omega arith, omega arith)

module _ (f g : Factory) (same : g.snapshot ≡ f.snapshot)
    (attempted : g.metrics ≡ Metrics.refresh_attempt f.metrics) where
  succeeded : Counted 1 0 f.metrics (Metrics.refresh_succeeded g.metrics)
  succeeded = rw (attempted) (refresh_succeeded-Counted f.metrics)

  failed : Counted 0 1 f.metrics (Metrics.refresh_failed g.metrics)
  failed = rw (attempted) (refresh_failed-Counted f.metrics)

  revalidate_from-Reported :
      (now : Time) (s : Option Snapshot) → Reported f (revalidate_from now g s)
  revalidate_from-Reported now none = (same, λ h. cc, failed)
  revalidate_from-Reported now (some s) = (refl, succeeded)

  replace_by-Reported :
      (n : ℕ) (r : Result BuildError Snapshot)
      → Reported f (replace_by (record g { generation = n }) r)
  replace_by-Reported n (err e) = (same, λ h. cc, failed)
  replace_by-Reported n (ok s) = (refl, succeeded)

  settle-Reported :
      (wild : Float → ℤ) (now : Time) (r : Result FetchError FetchResult)
      → Reported f (settle wild now g r)
  unfolding revalidate replace
  settle-Reported wild now (err e) = (same, λ h. cc, failed)
  settle-Reported wild now (ok r) = by_answer r.not_modified
    where
      by_answer :
          (b : Bool) → Reported f (if b then revalidate now g else replace wild r.claims now g)
      by_answer true = revalidate_from-Reported now g.snapshot
      by_answer false = replace_by-Reported _ _

-- A refresh of an enabled service counts one attempt, and either one success and no failure, or one
-- failure and no success, modulo 2^64. Where it fails, the snapshot that was published before stays,
-- and the status tells of the failure; where it succeeds, the status is ready.
pub fetch-Reported :
    (wild : Float → ℤ) (env : Exchanges) (now : Time) (f : Factory)
    → f.service.enabled ≡ true
    → Reported f (fetch wild env now f)
unfolding fetch
fetch-Reported wild env now f h = if_on_false (Reported f) _ (not-true h) (
    settle-Reported f
      (record f {
        service = (fetch_claims env f.service).0;
        metrics = Metrics.refresh_attempt f.metrics;
      })
      refl refl wild now (fetch_claims env f.service).1)

-- What holds of a published snapshot: the index answers as a search through the claims does, and its
-- versions are known.
pub record IsSound (wild : Float → ℤ) (s : Snapshot) : Type 0 where
  pub indexed :
      (dimension : String) (x z : Float)
      → keep (λ c. claim_contains c x z) (candidates wild (some s) dimension x z)
        ≡ keep (λ c. c.location.dimension == dimension && claim_contains c x z) s.claims
  pub known : supported (some s) ≡ true

abbrev pub OnSnapshot : (Snapshot → Type 0) → Option Snapshot → Type 0
OnSnapshot P none = Unit {0}
OnSnapshot P (some s) = P s

build_snapshot-supported :
    (wild : Float → ℤ) (claims : Dict String PlayerClaim) (n : ℕ) (now : Time) (s : Snapshot)
    → build_snapshot wild claims n now ≡ ok s
    → supported (some s) ≡ true
unfolding build_snapshot supported ℕ_discrete
build_snapshot-supported wild claims n now s h =
    let (collected, e, f) = >>=-eq-ok (collect_claims claims []) _ h in
    let (index, e', f') = >>=-eq-ok (index_claims wild collected no_cells) _ f in
    subst (λ t. supported (some t) ≡ true) (ok-injective f') refl

pub build_snapshot-IsSound :
    (wild : Float → ℤ) (claims : Dict String PlayerClaim) (n : ℕ) (now : Time) (s : Snapshot)
    → build_snapshot wild claims n now ≡ ok s
    → IsSound wild s
build_snapshot-IsSound wild claims n now s h = record {
  indexed = λ d x z. keep-candidates wild d x z claims n now s h;
  known = build_snapshot-supported wild claims n now s h;
}

module _ (wild : Float → ℤ) where
  abbrev Sound : Factory × Result RefreshError (Unit {0}) → Type 0
  Sound r = OnSnapshot (IsSound wild) r.0.snapshot

  revalidate_from-IsSound :
      (now : Time) (f : Factory) (s : Option Snapshot)
      → OnSnapshot (IsSound wild) f.snapshot
      → OnSnapshot (IsSound wild) s
      → Sound (revalidate_from now f s)
  unfolding candidates supported
  revalidate_from-IsSound now f none h k = h
  revalidate_from-IsSound now f (some s) h k = record { indexed = k.indexed; known = k.known }

  replace_by-IsSound :
      (f : Factory) (r : Result BuildError Snapshot)
      → OnSnapshot (IsSound wild) f.snapshot
      → ((s : Snapshot) → r ≡ ok s → IsSound wild s)
      → Sound (replace_by f r)
  replace_by-IsSound f (err e) h k = h
  replace_by-IsSound f (ok s) h k = k s refl

  settle-IsSound :
      (now : Time) (f : Factory) (r : Result FetchError FetchResult)
      → OnSnapshot (IsSound wild) f.snapshot
      → Sound (settle wild now f r)
  unfolding revalidate replace
  settle-IsSound now f (err e) h = h
  settle-IsSound now f (ok r) h =
      if_both Sound r.not_modified (revalidate_from-IsSound now f f.snapshot h h) (
        replace_by-IsSound (record f { generation = add_uint64 f.generation 1 }) _ h
          (build_snapshot-IsSound wild r.claims _ now))

  fetch-IsSound :
      (env : Exchanges) (now : Time) (f : Factory)
      → OnSnapshot (IsSound wild) f.snapshot
      → Sound (fetch wild env now f)
  unfolding fetch
  fetch-IsSound env now f h = if_both Sound (not f.service.enabled) h (
      settle-IsSound now
        (record f {
          service = (fetch_claims env f.service).0;
          metrics = Metrics.refresh_attempt f.metrics;
        })
        (fetch_claims env f.service).1 h)

  -- The refreshes of a server, each with what its environment does and the time of its answer.
  unfoldable pub run_fetches : List (Exchanges × Time) → Factory → Factory
  run_fetches [] f = f
  run_fetches ((env, now) ∷ rest) f = run_fetches rest (fetch wild env now f).0

  run_fetches-keeps :
      (steps : List (Exchanges × Time)) (f : Factory)
      → OnSnapshot (IsSound wild) f.snapshot
      → OnSnapshot (IsSound wild) (run_fetches steps f).snapshot
  unfolding run_fetches
  run_fetches-keeps [] f h = h
  run_fetches-keeps ((env, now) ∷ rest) f h =
      run_fetches-keeps rest (fetch wild env now f).0 (fetch-IsSound env now f h)

  -- After any refreshes of a new factory, whatever the service answered, the snapshot that is
  -- published, if there is one, answers a query for a position as a search through all its claims
  -- does, and has the versions that this program knows.
  pub run_fetches-IsSound :
      (enabled : Bool) (server : String) (poll_interval max_age : Duration)
      (steps : List (Exchanges × Time))
      → OnSnapshot
          (IsSound wild)
          (run_fetches steps (new_factory enabled server poll_interval max_age)).snapshot
  unfolding new_factory
  run_fetches-IsSound enabled server poll_interval max_age steps = run_fetches-keeps steps _ tt

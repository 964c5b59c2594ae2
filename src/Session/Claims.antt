-- ===== src/Session/Claims.antt =====
-- claimActionPermitted and singleClaimAt of session/util_claim_action.go: the decision on an action
-- of a session, which is "permitted" wherever the claims are not known for certain.
pub mod Matching
pub mod Denial
pub mod Stability
use gobds.Base.{
  ℕ, ◌≡◌, String, Bool, true, false, not, Option, none, some, List, [], ◌∷◌, length, keep,
  if◌then◌else◌,
}
use gobds.Base.Int.{ℤ}
use gobds.Clock.{Time}
use gobds.Float.{Float}
use gobds.Geometry.{claim_contains}
use gobds.Claim.Model.{Vector3, PlayerClaim}
use gobds.Claim.Status.{
  QueryStatus, ready, missing, stale, unsupported, unknown_dimension, invalid, overlap,
  refresh_failed,
}
use gobds.Claim.Metrics
use gobds.Claim.Metrics.{Metrics}
use gobds.Claim.Snapshot.Build.{Snapshot, candidates}
use gobds.Claim.Factory.{Factory, query}
use gobds.Policy.{
  ClaimAction, render, block_break, block_place, block_interact, entity_interact, entity_hurt,
  item_release, item_throw, item_drop, Payload, ClaimActor, ClaimActionData, claim_action_data_from,
  claim_action_permitted,
}
use gobds.Session.Dimension.{DimensionDefinition, claim_dimension_from_int}

-- uint8(action)
abbrev pub action_index : ClaimAction → ℕ
action_index render = 0
action_index block_break = 1
action_index block_place = 2
action_index block_interact = 3
action_index entity_interact = 4
action_index entity_hurt = 5
action_index item_release = 6
action_index item_throw = 7
action_index item_drop = 8

-- The claim that contains a position, unless several do; the loop carries the one found before.
unfoldable pub match_claims :
    Float → Float → List PlayerClaim → Option PlayerClaim → Option PlayerClaim × Bool
match_claims x z [] matched = (matched, false)
match_claims x z (c ∷ cs) matched =
    let skipped = match_claims x z cs matched in
    let taken = match_claims x z cs (some c) in
    if not (claim_contains c x z)
    then skipped
    else elim matched [ none ↦ taken | some m ↦ (none, true) ]

unfoldable pub single_claim_at : List PlayerClaim → Float → Float → Option PlayerClaim × Bool
single_claim_at cs x z = match_claims x z cs none

-- What a session brings to a query, besides the claims.
pub record Caller : Type 0 where
  pub claim_prefilter : Bool
  pub dimension : ℤ
  pub dimensions : List DimensionDefinition
  pub actor : ClaimActor

-- A decision, with the metrics that it leaves.
abbrev pub Decision : Type 0
Decision = Bool × Metrics

abbrev recorded : ClaimAction → Bool → Metrics → Decision
recorded action permitted m = (permitted, Metrics.action (action_index action) permitted m)

abbrev failed_open : ClaimAction → QueryStatus → Metrics → Decision
failed_open action status m = recorded action true (Metrics.reason status m)

unfoldable pub decide_match :
    ClaimActor → ClaimAction → Payload → Option PlayerClaim × Bool → Metrics → Decision
decide_match actor action payload (matched, true) m = failed_open action overlap m
decide_match actor action payload (none, false) m = recorded action true m
decide_match actor action payload (some c, false) m =
    recorded action (claim_action_permitted c actor action payload) m

unfoldable pub decide_in :
    (Float → ℤ)
    → Caller
    → ClaimAction
    → Payload
    → Vector3
    → Option Snapshot
    → Option String
    → Metrics
    → Decision
decide_in wild caller action payload position snapshot none m =
    failed_open action unknown_dimension m
decide_in wild caller action payload position snapshot (some dimension) m =
    let found = candidates wild snapshot dimension position.x position.z in
    decide_match caller.actor action payload (single_claim_at found position.x position.z)
      (Metrics.add_candidates (length found) m)

unfoldable pub decide_status :
    (Float → ℤ)
    → Caller
    → ClaimAction
    → Payload
    → Vector3
    → Option Snapshot × QueryStatus
    → Metrics
    → Decision
decide_status wild caller action payload position (snapshot, ready) m =
    decide_in wild caller action payload position snapshot
      (claim_dimension_from_int caller.dimension caller.dimensions) m
decide_status wild caller action payload position (snapshot, missing) m =
    failed_open action missing m
decide_status wild caller action payload position (snapshot, stale) m = failed_open action stale m
decide_status wild caller action payload position (snapshot, unsupported) m =
    failed_open action unsupported m
decide_status wild caller action payload position (snapshot, unknown_dimension) m =
    failed_open action unknown_dimension m
decide_status wild caller action payload position (snapshot, invalid) m =
    failed_open action invalid m
decide_status wild caller action payload position (snapshot, overlap) m =
    failed_open action overlap m
decide_status wild caller action payload position (snapshot, refresh_failed) m =
    failed_open action refresh_failed m

unfoldable pub decide_data :
    (Float → ℤ)
    → Caller
    → ClaimAction
    → Payload
    → Option ClaimActionData
    → Option Snapshot × QueryStatus
    → Metrics
    → Decision
decide_data wild caller action payload none q m = failed_open action invalid m
decide_data wild caller action payload (some d) q m =
    decide_status wild caller action payload d.position q m

-- The decision for a session whose server has the factory.
unfoldable pub decide : (Float → ℤ) → Caller → ClaimAction → Payload → Time → Factory → Decision
decide wild caller action payload now f =
    if not caller.claim_prefilter
    then recorded action true f.metrics
    else decide_data wild caller action payload (claim_action_data_from payload) (query f now)
        f.metrics

abbrev kept : Factory → Decision → Bool × Option Factory
kept f (permitted, m) = (permitted, some (record f { metrics = m }))

-- claimActionPermitted(action, data) of a session, with the factory that it shares with the others.
unfoldable pub session_claim_action_permitted :
    (Float → ℤ) → Caller → ClaimAction → Payload → Time → Option Factory → Bool × Option Factory
session_claim_action_permitted wild caller action payload now none = (true, none)
session_claim_action_permitted wild caller action payload now (some f) =
    kept f (decide wild caller action payload now f)

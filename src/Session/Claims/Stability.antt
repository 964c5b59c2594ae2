-- ===== src/Session/Claims/Stability.antt =====
-- A decision of session/util_claim_action.go does not depend on what the metrics have counted.
use gobds.Base.{◌≡◌, refl, String, Bool, true, false, Option, none, some, arith}
use gobds.Base.Int.{ℤ}
use gobds.Clock.{Time}
use gobds.Float.{Float}
use gobds.Claim.Model.{Vector3, PlayerClaim}
use gobds.Claim.Status.{
  QueryStatus, ready, missing, stale, unsupported, unknown_dimension, invalid, overlap,
  refresh_failed,
}
use gobds.Claim.Metrics.{Metrics}
use gobds.Claim.Snapshot.Build.{Snapshot}
use gobds.Claim.Factory.{Factory, query}
use gobds.Policy.{ClaimAction, Payload, ClaimActionData, claim_action_data_from}
use gobds.Session.Claims.{
  Caller, decide_match, decide_in, decide_status, decide_data, decide,
  session_claim_action_permitted,
}

-- The factory, with other counts.
abbrev pub with_metrics : Metrics → Factory → Factory
with_metrics m f = record f { metrics = m }

module _ (wild : Float → ℤ) (caller : Caller) (action : ClaimAction) (payload : Payload)
    (m n : Metrics) where
  decide_match-metrics :
      (p : Option PlayerClaim × Bool) (k l : Metrics)
      → (decide_match caller.actor action payload p k).0
        ≡ (decide_match caller.actor action payload p l).0
  unfolding decide_match
  decide_match-metrics (c, true) k l = refl
  decide_match-metrics (none, false) k l = refl
  decide_match-metrics (some c, false) k l = refl

  decide_in-metrics :
      (v : Vector3) (s : Option Snapshot) (d : Option String)
      → (decide_in wild caller action payload v s d m).0
        ≡ (decide_in wild caller action payload v s d n).0
  unfolding decide_in
  decide_in-metrics v s none = refl
  decide_in-metrics v s (some d) = decide_match-metrics _ _ _

  decide_status-metrics :
      (v : Vector3) (q : Option Snapshot × QueryStatus)
      → (decide_status wild caller action payload v q m).0
        ≡ (decide_status wild caller action payload v q n).0
  unfolding decide_status
  decide_status-metrics v (s, ready) = decide_in-metrics v s _
  decide_status-metrics v (s, missing) = refl
  decide_status-metrics v (s, stale) = refl
  decide_status-metrics v (s, unsupported) = refl
  decide_status-metrics v (s, unknown_dimension) = refl
  decide_status-metrics v (s, invalid) = refl
  decide_status-metrics v (s, overlap) = refl
  decide_status-metrics v (s, refresh_failed) = refl

  decide_data-metrics :
      (o : Option ClaimActionData) (q : Option Snapshot × QueryStatus)
      → (decide_data wild caller action payload o q m).0
        ≡ (decide_data wild caller action payload o q n).0
  unfolding decide_data
  decide_data-metrics none q = refl
  decide_data-metrics (some d) q = decide_status-metrics d.position q

  decide-metrics :
      (now : Time) (f : Factory)
      → (decide wild caller action payload now (with_metrics m f)).0
        ≡ (decide wild caller action payload now (with_metrics n f)).0
  unfolding decide query
  decide-metrics now f =
      ground (arith, decide_data-metrics (claim_action_data_from payload) (query f now))

  -- The answer to a session is the same, whatever its factory has counted.
  pub session_claim_action_permitted-with_metrics :
      (now : Time) (f : Factory)
      → (session_claim_action_permitted wild caller action payload now (some (with_metrics m f))).0
        ≡ (session_claim_action_permitted wild caller action payload now
            (some (with_metrics n f))).0
  unfolding session_claim_action_permitted
  session_claim_action_permitted-with_metrics now f = decide-metrics now f

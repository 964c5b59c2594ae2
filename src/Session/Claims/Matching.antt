-- ===== src/Session/Claims/Matching.antt =====
-- singleClaimAt of session/util_claim_action.go by the claims that contain a position.
use gobds.Base.{
  ◌≡◌, refl, Bool, true, false, Option, none, some, List, [], ◌∷◌, keep, string_eq, arith,
}
use gobds.Float.{Float}
use gobds.Geometry.{claim_contains}
use gobds.Claim.Model.{PlayerClaim}
use gobds.Claim.Metrics.{Metrics}
use gobds.Policy.{ClaimAction, Payload, ClaimActor, claim_action_permitted}
use gobds.Session.Claims.{match_claims, single_claim_at, decide_match}

-- The answer of the loop, from all the claims that contain the position.
abbrev pub match_of : List PlayerClaim → Option PlayerClaim × Bool
match_of [] = (none, false)
match_of (c ∷ []) = (some c, false)
match_of (c ∷ d ∷ cs) = (none, true)

abbrev found_before : Option PlayerClaim → List PlayerClaim → List PlayerClaim
found_before none cs = cs
found_before (some c) cs = c ∷ cs

match_claims-match_of :
    (x z : Float) (cs : List PlayerClaim) (matched : Option PlayerClaim)
    → match_claims x z cs matched
      ≡ match_of (found_before matched (keep (λ c. claim_contains c x z) cs))
unfolding match_claims keep
match_claims-match_of x z [] none = refl
match_claims-match_of x z [] (some m) = refl
match_claims-match_of x z (c ∷ cs) none =
    ground (arith, match_claims-match_of x z cs none, match_claims-match_of x z cs (some c))
match_claims-match_of x z (c ∷ cs) (some m) = ground (arith, match_claims-match_of x z cs (some m))

-- The loop finds a claim, nothing or an overlap by the claims that contain the position.
pub single_claim_at-match_of :
    (cs : List PlayerClaim) (x z : Float)
    → single_claim_at cs x z ≡ match_of (keep (λ c. claim_contains c x z) cs)
unfolding single_claim_at
single_claim_at-match_of cs x z = match_claims-match_of x z cs none

pub match_of-eq-some :
    (cs : List PlayerClaim) (c : PlayerClaim) → match_of cs ≡ (some c, false) → cs ≡ c ∷ []
match_of-eq-some [] c h = absurd (ground arith)
match_of-eq-some (d ∷ []) c h = ground arith
match_of-eq-some (d ∷ e ∷ cs) c h = absurd (ground arith)

pub decide_match-eq-false :
    (actor : ClaimActor) (action : ClaimAction) (payload : Payload)
    (match : Option PlayerClaim × Bool) (m : Metrics)
    → (decide_match actor action payload match m).0 ≡ false
    → (c : PlayerClaim) × (match ≡ (some c, false))
      × (claim_action_permitted c actor action payload ≡ false)
unfolding decide_match
decide_match-eq-false actor action payload (matched, true) m h = absurd (ground arith)
decide_match-eq-false actor action payload (none, false) m h = absurd (ground arith)
decide_match-eq-false actor action payload (some c, false) m h = (c, refl, h)

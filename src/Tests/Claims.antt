-- ===== src/Tests/Claims.antt =====
-- Tests of the decisions on claims (session/util_claim_action.go, claim/snapshot.go).
use gobds.Base.{◌≡◌, refl, ◌↔◌, true, false, some, [], ◌∷◌, string_eq, nat_eq, keep, ℕ_discrete}
use gobds.Base.Int.{pos, ℤ-discrete, ◌+ℤ◌, ◌-ℤ◌, ◌*ℤ◌}
use gobds.Base.Dict.{lookup, insert}
use gobds.Base.Result.{ok}
use gobds.Float.{whole, float_min, float_max, floor_cell, int32_of}
use gobds.Geometry.{between, claim_contains}
use gobds.Claim.Snapshot.Build.{Snapshot, build_snapshot, candidates}
use gobds.Claim.Snapshot.Candidates.{inside_in, keep-candidates}
use gobds.Claim.Factory.Refresh.{IsSound, build_snapshot-IsSound}
use gobds.Policy.{
  ClaimAction, block_break, Payload, action_data, ClaimActor, claim_action_permitted,
}
use gobds.Policy.Rules.{Permits, payload_for}
use gobds.Policy.Laws.{claim_action_permitted_iff}
use gobds.Session.Claims.{Caller, session_claim_action_permitted}
use gobds.Session.Claims.Denial.{Denial, session_claim_action_permitted_iff}
use gobds.Tests.{zero_of, spot, home, home_claims, home_snapshot, home_factory}

built : build_snapshot zero_of home_claims 1 5 ≡ ok home_snapshot
unfolding build_snapshot gobds.Claim.Snapshot.Build.collect_claims
    gobds.Claim.Snapshot.Validate.clone_and_validate_claim string_eq
    gobds.Claim.Dimension.canonical_dimension ℕ_discrete gobds.Claim.Snapshot.Validate.finite2
    gobds.Claim.Snapshot.Validate.float32_invalid gobds.Claim.Snapshot.Validate.clone_features
    gobds.Claim.Snapshot.Index.index_claims gobds.Claim.Snapshot.Index.index_claim
    gobds.Claim.Snapshot.Cells.add_claim gobds.Claim.Snapshot.Cells.claim_cells
    gobds.Claim.Snapshot.Cells.checked_cell_for floor_cell float_min float_max
    gobds.Claim.Snapshot.Cells.too_large insert lookup ◌*ℤ◌ ◌+ℤ◌ ◌-ℤ◌ gobds.Strings.is_space
    gobds.Strings.split gobds.Strings.to_lower gobds.Strings.trim_space
    gobds.Claim.Snapshot.Cells.add_cell gobds.Claim.Snapshot.Cells.add_column
    gobds.Claim.Snapshot.Cells.add_rectangle gobds.Claim.Snapshot.Cells.span int32_of
built = refl

keep-candidates_example :
    keep
      (λ c. claim_contains c (whole (pos 3)) (whole (pos 4)))
      (candidates zero_of
        (some home_snapshot)
        "minecraft:overworld"
        (whole (pos 3))
        (whole (pos 4)))
    ≡ keep (inside_in zero_of "minecraft:overworld" (whole (pos 3)) (whole (pos 4))) (home ∷ [])
keep-candidates_example =
    keep-candidates zero_of "minecraft:overworld" (whole (pos 3)) (whole (pos 4)) home_claims 1 5
      home_snapshot built

abbrev visitor : ClaimActor
visitor = record { xuid = "8"; operator = false }

abbrev visit : Caller
visit = record { claim_prefilter = true; dimension = pos 0; dimensions = []; actor = visitor }

claim_action_permitted_iff_example :
    (claim_action_permitted home visitor block_break
        (payload_for block_break (spot 3 4) "minecraft:dirt")
      ≡ true)
    ↔ Permits home visitor (spot 3 4) "minecraft:dirt" block_break
claim_action_permitted_iff_example =
    claim_action_permitted_iff home visitor (spot 3 4) "minecraft:dirt" block_break

pub home_snapshot-IsSound : IsSound zero_of home_snapshot
home_snapshot-IsSound = build_snapshot-IsSound zero_of home_claims 1 5 home_snapshot built

session_claim_action_permitted_iff_example :
    ((session_claim_action_permitted zero_of visit block_break
        (action_data (spot 3 4) "minecraft:dirt")
        6
        (some home_factory)).0
      ≡ false)
    ↔ Denial zero_of visit block_break (action_data (spot 3 4) "minecraft:dirt") 6 home_factory
session_claim_action_permitted_iff_example =
    session_claim_action_permitted_iff zero_of visit block_break
      (action_data (spot 3 4) "minecraft:dirt") 6 home_factory home_snapshot-IsSound

-- The visitor is denied inside the claim, and not outside it.
denied_inside :
    (session_claim_action_permitted zero_of visit block_break
      (action_data (spot 3 4) "minecraft:dirt")
      6
      (some home_factory)).0
    ≡ false
unfolding session_claim_action_permitted gobds.Session.Claims.decide
    gobds.Session.Claims.decide_data gobds.Policy.claim_action_data_from
    gobds.Session.Claims.decide_status gobds.Claim.Factory.query
    gobds.Claim.Snapshot.Build.supported ℕ_discrete gobds.Claim.Snapshot.Build.age
    gobds.Clock.is_zero gobds.Clock.sub_time gobds.Session.Claims.decide_in
    gobds.Session.Dimension.claim_dimension_from_int ℤ-discrete candidates lookup string_eq
    floor_cell int32_of float_min float_max between claim_contains
    gobds.Claim.Snapshot.Cells.CellKey-discrete gobds.Claim.Snapshot.Cells.cell_for
    gobds.Session.Claims.single_claim_at gobds.Session.Claims.match_claims
    gobds.Session.Claims.decide_match claim_action_permitted gobds.Policy.valid_claim
    gobds.Policy.claim_owner_or_trusted gobds.Policy.permitted_by_action
    gobds.Policy.handle_claim_action_in_feature gobds.Policy.some_feature
denied_inside = refl

permitted_outside :
    (session_claim_action_permitted zero_of visit block_break
      (action_data (spot 16 4) "minecraft:dirt")
      6
      (some home_factory)).0
    ≡ true
unfolding session_claim_action_permitted gobds.Session.Claims.decide
    gobds.Session.Claims.decide_data gobds.Policy.claim_action_data_from
    gobds.Session.Claims.decide_status gobds.Claim.Factory.query
    gobds.Claim.Snapshot.Build.supported ℕ_discrete gobds.Claim.Snapshot.Build.age
    gobds.Clock.is_zero gobds.Clock.sub_time gobds.Session.Claims.decide_in
    gobds.Session.Dimension.claim_dimension_from_int ℤ-discrete candidates lookup string_eq
    floor_cell int32_of float_min float_max between claim_contains
    gobds.Claim.Snapshot.Cells.CellKey-discrete gobds.Claim.Snapshot.Cells.cell_for
    gobds.Session.Claims.single_claim_at gobds.Session.Claims.match_claims
    gobds.Session.Claims.decide_match claim_action_permitted gobds.Policy.valid_claim
    gobds.Policy.claim_owner_or_trusted gobds.Policy.permitted_by_action
    gobds.Policy.handle_claim_action_in_feature gobds.Policy.some_feature
permitted_outside = refl

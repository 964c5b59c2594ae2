-- ===== src/Claim/Snapshot/Build.antt =====
-- Snapshot of claim/snapshot.go: its construction by BuildSnapshot, and the queries on it.
use gobds.Base.{
  ℕ, String, Bool, false, ◌&&◌, Option, none, some, List, [], ◌∷◌, ◌==◌, contains, length,
  string_eq, nat_eq, if◌then◌else◌,
}
use gobds.Base.Dict.{Dict}
use gobds.Base.Int.{ℤ, pos, max_ℤ}
use gobds.Base.Result.{Result, ok, err, ◌>>=◌}
use gobds.Clock.{Time, Duration, is_zero, sub_time, max_int64}
use gobds.Float.{Float}
use gobds.Claim.Model.{PlayerClaim}
use gobds.Claim.Snapshot.Validate.{BuildError, duplicate_claim_id, clone_and_validate_claim}
use gobds.Claim.Snapshot.Cells.{cell_for}
use gobds.Claim.Snapshot.Index.{SpatialIndex, index_claims, entered}

abbrev pub current_policy_version : ℕ
current_policy_version = 1

abbrev pub current_schema_version : ℕ
current_schema_version = 1

pub record Snapshot : Type 0 where
  pub policy_version : ℕ
  pub schema_version : ℕ
  pub generation : ℕ
  pub generated_at : Time
  pub fetched_at : Time
  pub claim_count : ℕ
  pub claims : List PlayerClaim
  pub index : SpatialIndex
  pub open index use *

-- The first loop of BuildSnapshot, over the map's entries in the order in which Go gives them; `ids`
-- holds the ids seen before.
unfoldable pub collect_claims :
    Dict String PlayerClaim → List String → Result BuildError (List PlayerClaim)
collect_claims [] ids = ok []
collect_claims ((key, source) ∷ rest) ids = do
  cl ← clone_and_validate_claim key source
  let later = collect_claims rest (cl.id ∷ ids)
  if contains ids cl.id then err (duplicate_claim_id cl.id) else do others ← later; ok (cl ∷ others)

abbrev pub no_cells : SpatialIndex
no_cells = record { cells = []; cell_count = 0 }

unfoldable pub build_snapshot :
    (Float → ℤ) → Dict String PlayerClaim → ℕ → Time → Result BuildError Snapshot
build_snapshot wild claims generation now = do
  collected ← collect_claims claims []
  index ← index_claims wild collected no_cells
  ok (record {
    policy_version = current_policy_version;
    schema_version = current_schema_version;
    generation = generation;
    generated_at = now;
    fetched_at = now;
    claim_count = length claims;
    claims = collected;
    index = index;
  })

-- The map's order of entries is an argument of this model, so a slice is its list of claims.
unfoldable pub candidates :
    (Float → ℤ) → Option Snapshot → String → Float → Float → List PlayerClaim
candidates wild none dimension x z = []
candidates wild (some s) dimension x z = entered dimension (cell_for wild x z) s.index

unfoldable pub supported : Option Snapshot → Bool
supported none = false
supported (some s) =
    s.policy_version == current_policy_version && s.schema_version == current_schema_version

unfoldable pub age : Option Snapshot → Time → Duration
age none now = pos max_int64
age (some s) now =
    if is_zero s.fetched_at then pos max_int64 else max_ℤ (sub_time now s.fetched_at) (pos 0)

-- ===== src/Tests.antt =====
-- Concrete claims, players and answers for the tests, which the children hold; and the theorems
-- applied to them.
pub mod Claims
pub mod Refreshes
pub mod Places
pub mod Traffic
pub mod Sessions
pub mod Inventory
pub mod Stacks
pub mod SubChunks
pub mod Commands
pub mod Packets
pub mod Services
pub mod Logs
pub mod Translations
use gobds.Base.{
  ◌≢◌, ◌==◌, string_eq, arith, ℕ, ◌≡◌, String, Bool, true, false, Option, none, some, List, [], ◌∷◌,
}
use gobds.Base.Int.{ℤ, pos}
use gobds.Base.Dict.{Dict}
use gobds.Clock.{Time}
use gobds.Float.{Float, whole}
use gobds.Claim.Model.{Vector2, Vector3, Location, Feature, PlayerClaim}
use gobds.Claim.Status.{ready}
use gobds.Claim.Metrics.{new_metrics}
use gobds.Claim.Snapshot.Cells.{CellKey}
use gobds.Claim.Snapshot.Index.{SpatialIndex}
use gobds.Claim.Snapshot.Build.{Snapshot}
use gobds.Claim.Service.{Service}
use gobds.Claim.Factory.{Factory}

-- An implementation that makes 0 of a coordinate which int32 cannot hold.
abbrev pub zero_of : Float → ℤ
zero_of v = pos 0

abbrev pub spot : ℕ → ℕ → Vector3
spot x z = record { x = whole (pos x); y = whole (pos 64); z = whole (pos z) }

abbrev pub home : PlayerClaim
home = record {
  id = "home";
  owner_xuid = "7";
  location = record {
    dimension = "minecraft:overworld";
    pos1 = record { x = whole (pos 0); z = whole (pos 0) };
    pos2 = record { x = whole (pos 15); z = whole (pos 15) };
  };
  features = [];
  trusted_xuids = [];
}

abbrev pub home_claims : Dict String PlayerClaim
home_claims = ("home", home) ∷ []

-- What BuildSnapshot makes of these claims.
abbrev pub home_snapshot : Snapshot
home_snapshot = record {
  policy_version = 1;
  schema_version = 1;
  generation = 1;
  generated_at = 5;
  fetched_at = 5;
  claim_count = 1;
  claims = home ∷ [];
  index = record {
    cells = ("minecraft:overworld", (record { x = pos 0; z = pos 0 }, home ∷ []) ∷ []) ∷ [];
    cell_count = 1;
  };
}

abbrev pub home_factory : Factory
home_factory = record {
  service = record { enabled = true; last_modified = "Mon" };
  snapshot = some home_snapshot;
  generation = 1;
  failure_status = ready;
  poll_interval = pos 15;
  max_snapshot_age = pos 45;
  metrics = new_metrics "survival";
}

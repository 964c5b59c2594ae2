-- ===== src/Session/Data.antt =====
-- session/data.go: the flags of a player, each changed in one step.
use gobds.Base.{◌*◌, Bool}
use gobds.Base.Int.{ℤ, pos, ltb_ℤ, int_eq}
use gobds.Base.{◌==◌}
use gobds.Clock.{Time, sub_time, millisecond}

pub record PlayerData : Type 0 where
  pub dimension : ℤ
  pub gamemode : ℤ
  pub last_drop : Time
  pub operator : Bool

-- packet.PermissionLevelOperator of the protocol library
unfoldable pub new_data : ℤ → ℤ → ℤ → ℤ → PlayerData
new_data operator_level dimension gamemode permissions = record {
  dimension = dimension;
  gamemode = gamemode;
  last_drop = 0;
  operator = permissions == operator_level;
}

unfoldable pub set_dimension : ℤ → PlayerData → PlayerData
set_dimension d data' = record data' { dimension = d }

unfoldable pub set_game_mode : ℤ → PlayerData → PlayerData
set_game_mode mode data' = record data' { gamemode = mode }

unfoldable pub set_last_drop : Time → PlayerData → PlayerData
set_last_drop now data' = record data' { last_drop = now }

unfoldable pub set_operator : Bool → PlayerData → PlayerData
set_operator b data' = record data' { operator = b }

unfoldable pub interact_with_block : Time → PlayerData → Bool
interact_with_block now data' = ltb_ℤ (pos (500 * millisecond)) (sub_time now data'.last_drop)

-- ===== src/Session/Afk.antt =====
-- The AFK bookkeeping of session/session.go.
use gobds.Base.{Bool, true, false, not, ◌||◌, if◌then◌else◌}
use gobds.Base.Int.{pos}
use gobds.Clock.{Time, Duration, is_zero, sub_time}
use gobds.Float.{Float}
use gobds.Claim.Model.{Vector3}
use gobds.Session.State.{Platform, AfkState}

-- TouchMovement: whether the player has moved; then every warning is reset.
unfoldable pub touch_movement :
    Platform → Vector3 → Float → Float → Time → AfkState → AfkState × Bool
touch_movement platform position yaw pitch now a =
    let has_moved =
      not (platform.vec3_approx_equal a.last_position position)
      || not (platform.float_equal a.last_yaw yaw)
      || not (platform.float_equal a.last_pitch pitch) in
    if not has_moved then (a, false) else (
      record {
        last_move_time = now;
        last_position = position;
        last_yaw = yaw;
        last_pitch = pitch;
        warned_approaching = false;
        marked_afk = false;
        warned_final = false;
      },
      true,
    )

unfoldable pub afk_duration : Time → AfkState → Duration
afk_duration now a = if is_zero a.last_move_time then pos 0 else sub_time now a.last_move_time

unfoldable pub set_warned_approaching : Bool → AfkState → AfkState
set_warned_approaching v a = record a { warned_approaching = v }

unfoldable pub set_marked_afk : Bool → AfkState → AfkState
set_marked_afk v a = record a { marked_afk = v }

unfoldable pub set_warned_final : Bool → AfkState → AfkState
set_warned_final v a = record a { warned_final = v }

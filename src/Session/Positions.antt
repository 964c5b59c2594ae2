-- ===== src/Session/Positions.antt =====
-- blockPosToVec3 of session/util.go, and what a session brings to a query for a claim.
use gobds.Base.{
  ℕ, zero, suc, ◌+◌, ◌-◌, ◌*◌, ◌/◌, ◌%◌, ◌^◌, Bool, false, ◌&&◌, ◌||◌, Option, some, none, ◌==◌,
  nat_eq, ltb, if◌then◌else◌, not,
}
use gobds.Base.Int.{ℤ, pos, negsuc}
use gobds.Clock.{Time}
use gobds.Float.{Float, whole}
use gobds.Area.{Area2D, position_inside}
use gobds.Claim.Model.{Vector3}
use gobds.Policy.{ClaimAction, Payload}
use gobds.Session.State.{Platform, Session}
use gobds.Session.Claims.{Caller, session_claim_action_permitted}

-- protocol.BlockPos
pub record BlockPos : Type 0 where
  pub x : ℤ
  pub y : ℤ
  pub z : ℤ

-- A whole number without its last e bits, rounded to the nearest, or to the even one of two.
abbrev round_bits : ℕ → ℕ → ℕ
round_bits n e =
    let q = n / 2 ^ e in
    let r = n % 2 ^ e in
    if ltb (2 ^ e) (2 * r) || (2 * r == 2 ^ e && q % 2 == 1) then (q + 1) * 2 ^ e else q * 2 ^ e

-- The first e from which on n has at most 24 bits; an int32 needs at most 8 of them.
unfoldable pub round24 : ℕ → ℕ → ℕ → ℕ
round24 zero e n = n
round24 (suc fuel) e n =
    let more = round24 fuel (e + 1) n in
    if ltb n (2 ^ (24 + e)) then (if e == 0 then n else round_bits n e) else more

abbrev float32_of_negative : ℕ → Float
float32_of_negative n = whole (negsuc (n - 1))

-- float32(v) of an int32
unfoldable pub float32_of_int32 : ℤ → Float
float32_of_int32 (pos n) = whole (pos (round24 9 0 n))
float32_of_int32 (negsuc n) = float32_of_negative (round24 9 0 (n + 1))

unfoldable pub block_pos_to_vec3 : BlockPos → Vector3
block_pos_to_vec3 p = record {
  x = float32_of_int32 p.x;
  y = float32_of_int32 p.y;
  z = float32_of_int32 p.z;
}

abbrev pub caller_of : Session → Caller
caller_of s = record {
  claim_prefilter = s.claim_prefilter;
  dimension = s.player.dimension;
  dimensions = s.dimensions;
  actor = record { xuid = s.xuid; operator = s.player.operator };
}

-- s.claimActionPermitted(action, data)
abbrev pub permits : Platform → ClaimAction → Payload → Time → Session → Session × Bool
permits platform action payload now s =
    let (permitted, claims) =
      session_claim_action_permitted platform.wild (caller_of s) action payload now s.claims in
    (record s { claims = claims }, permitted)

-- s.border != nil && !s.border.PositionInside(x, z)
abbrev pub outside_border : Option Area2D → ℤ → ℤ → Bool
outside_border none x z = false
outside_border (some a) x z = not (position_inside a x z)

-- ===== src/Geometry.antt =====
-- The tests of session/util.go and session/util_claim_action.go on positions.
use gobds.Base.{Bool, true, ◌&&◌, Option, none, some}
use gobds.Float.{Float, float_le, float_min, float_max}
use gobds.Claim.Model.{PlayerClaim, Feature, Vector2, Vector3}

-- min(a, b) <= v && v <= max(a, b)
unfoldable pub between : Float → Float → Float → Bool
between a b v = float_le (float_min a b) v && float_le v (float_max a b)

unfoldable pub claim_contains : PlayerClaim → Float → Float → Bool
claim_contains c x z =
    let l = c.location in between l.pos1.x l.pos2.x x && between l.pos1.z l.pos2.z z

unfoldable pub inside_vector3 : Vector3 → Vector2 → Vector2 → Bool
inside_vector3 v p q = between p.x q.x v.x && between p.z q.z v.z

abbrev corner : Option Vector3 → Vector2 → Vector2
corner none default = default
corner (some v) default = record { x = v.x; z = v.z }

-- The bounds of a feature: those of the claim where the feature has none.
unfoldable pub feature_bounds : PlayerClaim → Feature → Vector2 × Vector2
feature_bounds c f = (corner f.from_location c.location.pos1, corner f.to_location c.location.pos2)

-- The range of heights of a feature, open where an end is missing.
unfoldable pub inside_height : Option Vector3 → Option Vector3 → Float → Bool
inside_height (some p) (some q) y = between p.y q.y y
inside_height (some p) none y = float_le p.y y
inside_height none (some q) y = float_le y q.y
inside_height none none y = true

unfoldable pub inside_feature : PlayerClaim → Feature → Vector3 → Bool
inside_feature c f v =
    let (low, high) = feature_bounds c f in
    inside_vector3 v low high && inside_height f.from_location f.to_location v.y

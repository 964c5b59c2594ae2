-- ===== src/Float.antt =====
-- Go's float32 and float64 values as claims use them (claim/snapshot.go, session/util.go). A finite
-- float32 is a whole number of units of 2^-149, so `fin k` is exact; the two zeros, which no
-- comparison tells apart, are one value.
use gobds.Base.{◌+◌, ◌-◌, ◌*◌, ◌^◌, Bool, true, false, ◌&&◌, ◌||◌, if◌then◌else◌}
use gobds.Base.Int.{ℤ, pos, negsuc, leb_ℤ, floor_div}

pub data Float : Type 0 where
  nan neg_inf pos_inf : Float
  fin : ℤ → Float

-- x <= y
abbrev pub float_le : Float → Float → Bool
float_le nan y = false
float_le neg_inf nan = false
float_le neg_inf neg_inf = true
float_le neg_inf pos_inf = true
float_le neg_inf (fin b) = true
float_le pos_inf nan = false
float_le pos_inf neg_inf = false
float_le pos_inf pos_inf = true
float_le pos_inf (fin b) = false
float_le (fin a) nan = false
float_le (fin a) neg_inf = false
float_le (fin a) pos_inf = true
float_le (fin a) (fin b) = leb_ℤ a b

abbrev pub is_nan : Float → Bool
is_nan nan = true
is_nan neg_inf = false
is_nan pos_inf = false
is_nan (fin a) = false

-- The builtin min and max: NaN if either argument is.
unfoldable pub float_min : Float → Float → Float
float_min x y = if is_nan x || is_nan y then nan else if float_le x y then x else y

unfoldable pub float_max : Float → Float → Float
float_max x y = if is_nan x || is_nan y then nan else if float_le x y then y else x

-- The float32 of a small whole number.
abbrev pub whole : ℤ → Float
whole (pos n) = fin (pos (n * 2 ^ 149))
whole (negsuc n) = fin (negsuc ((n * 2 ^ 149) + (2 ^ 149 - 1)))

-- math.Floor(float64(v) / 16) for v in units of 2^-149, as a float64 in units of 1: the conversion,
-- the division by a power of two and the rounding down are all exact.
unfoldable pub floor_cell : Float → Float
floor_cell (fin a) = fin (floor_div a (2 ^ 153))
floor_cell nan = nan
floor_cell neg_inf = neg_inf
floor_cell pos_inf = pos_inf

abbrev pub min_int32 : ℤ
min_int32 = negsuc (2 ^ 31 - 1)

abbrev pub max_int32 : ℤ
max_int32 = pos (2 ^ 31 - 1)

abbrev pub in_int32 : ℤ → Bool
in_int32 a = leb_ℤ min_int32 a && leb_ℤ a max_int32

-- int32(v) for v in units of 1 and whole. Where int32 cannot hold v, Go leaves the result to the
-- implementation: `wild` stands for it.
unfoldable pub int32_of : (Float → ℤ) → Float → ℤ
int32_of wild (fin a) = if in_int32 a then a else wild (fin a)
int32_of wild nan = wild nan
int32_of wild neg_inf = wild neg_inf
int32_of wild pos_inf = wild pos_inf

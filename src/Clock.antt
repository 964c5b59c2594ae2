-- ===== src/Clock.antt =====
-- Go's time.Time and time.Duration as the program uses them. A time is the number of nanoseconds
-- since the zero time, a duration an int64 of nanoseconds; `Sub` stops at the ends of int64.
use gobds.Base.{ℕ, ◌%◌, ◌+◌, ◌-◌, ◌*◌, ◌^◌, Bool, min, leb, ◌==◌, nat_eq, if◌then◌else◌}
use gobds.Base.Int.{ℤ, pos, negsuc, pos_part, neg_part}

abbrev pub Time : Type 0
Time = ℕ

abbrev pub Duration : Type 0
Duration = ℤ

abbrev pub max_int64 : ℕ
max_int64 = 2 ^ 63 - 1

abbrev nat_zero : ℕ → Bool
nat_zero t = t == 0

unfoldable pub is_zero : Time → Bool
is_zero t = nat_zero t

-- now.Sub(t)
unfoldable pub sub_time : Time → Time → Duration
sub_time now t =
    if leb t now then pos (min (now - t) max_int64) else negsuc (min (t - now) (2 ^ 63) - 1)

abbrev pub microsecond : ℕ
microsecond = 1000

abbrev pub millisecond : ℕ
millisecond = 1000 * microsecond

abbrev pub second : ℕ
second = 1000 * millisecond

abbrev signed64 : ℕ → ℤ
signed64 n = if leb (2 ^ 63) n then negsuc (2 ^ 64 - 1 - n) else pos n

-- An int64, of a number that may not fit.
unfoldable pub wrap64 : ℤ → ℤ
wrap64 (pos n) = signed64 (n % 2 ^ 64)
wrap64 (negsuc n) = signed64 (2 ^ 64 - 1 - n % 2 ^ 64)

-- now.Add(d), for a time that stays above the zero time.
unfoldable pub add_time : Time → Duration → Time
add_time now d = now + pos_part d - neg_part d

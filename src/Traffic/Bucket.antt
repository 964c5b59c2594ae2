-- ===== src/Traffic/Bucket.antt =====
-- tokenBucket of session/traffic.go. Tokens are a float64 in units of 2^-1074. Only the refill rounds:
-- `refilled rate elapsed tokens` stands for the float64 `tokens + elapsed.Seconds()*rate`; the
-- minimum is exact, and so is taking 1 from a number of tokens below 2^53. The lock makes each call
-- one step.
use gobds.Base.{Bool, true, false, if◌then◌else◌}
use gobds.Base.Int.{pos, ◌-ℤ◌, ltb_ℤ}
use gobds.Clock.{Time, Duration, sub_time}
use gobds.Float.{Float, nan, neg_inf, pos_inf, fin, float_min}
use gobds.Traffic.Config.{RateLimit, one_token, float64_of}

pub record TokenBucket : Type 0 where
  pub rate : Float
  pub burst : Float
  pub tokens : Float
  pub last : Time

unfoldable pub new_token_bucket : RateLimit → Time → TokenBucket
new_token_bucket limit now = record {
  rate = limit.rate;
  burst = float64_of limit.burst;
  tokens = float64_of limit.burst;
  last = now;
}

-- tokenBucket{}
abbrev pub empty_bucket : TokenBucket
empty_bucket = record { rate = fin (pos 0); burst = fin (pos 0); tokens = fin (pos 0); last = 0 }

-- tokens < 1
abbrev below_one : Float → Bool
below_one nan = false
below_one neg_inf = true
below_one pos_inf = false
below_one (fin a) = ltb_ℤ a (pos one_token)

-- tokens - 1
abbrev minus_one : Float → Float
minus_one nan = nan
minus_one neg_inf = neg_inf
minus_one pos_inf = pos_inf
minus_one (fin a) = fin (a -ℤ pos one_token)

unfoldable pub refill : (Float → Duration → Float → Float) → Time → TokenBucket → TokenBucket
refill refilled now b =
    let elapsed = sub_time now b.last in
    if ltb_ℤ (pos 0) elapsed
    then record b { tokens = float_min b.burst (refilled b.rate elapsed b.tokens); last = now }
    else b

unfoldable pub take_token : TokenBucket → TokenBucket × Bool
take_token b =
    if below_one b.tokens then (b, false) else (record b { tokens = minus_one b.tokens }, true)

-- allow(now) of a bucket.
unfoldable pub allow_token :
    (Float → Duration → Float → Float) → Time → TokenBucket → TokenBucket × Bool
allow_token refilled now b = take_token (refill refilled now b)

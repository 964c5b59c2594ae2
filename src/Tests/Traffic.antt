-- ===== src/Tests/Traffic.antt =====
-- Tests of the limits on traffic (session/traffic.go).
use gobds.Base.{ℕ, ◌+◌, ◌*◌, ◌≤◌, ◌≡◌, refl, true, false, List, [], ◌∷◌, none, arith}
use gobds.Base.Int.{pos, negsuc}
use gobds.Clock.{Time, Duration, second}
use gobds.Float.{Float, nan, neg_inf, pos_inf, fin}
use gobds.Traffic.Config.{one_token, default_traffic_config, with_defaults}
use gobds.Traffic.Bucket.{TokenBucket, allow_token}
use gobds.Traffic.Bounds.{admitted, admitted-le-burst}
use gobds.Traffic.Modes.{IsFilled, with_defaults-with_defaults, in_mode, allow-in_mode}
use gobds.Traffic.{TrafficState, traffic_command, allow}

-- Four tokens a second, without rounding, in units of 2^-1074 and for each nanosecond; the units are
-- chosen so that this is a whole number.
abbrev per_nanosecond : ℕ
per_nanosecond = 4

abbrev refilled_exactly : Float → Duration → Float → Float
refilled_exactly rate (pos d) (fin (pos t)) = fin (pos (t + per_nanosecond * d))
refilled_exactly rate (pos d) (fin (negsuc t)) = fin (negsuc t)
refilled_exactly rate (pos d) nan = nan
refilled_exactly rate (pos d) neg_inf = neg_inf
refilled_exactly rate (pos d) pos_inf = pos_inf
refilled_exactly rate (negsuc d) tokens = tokens

abbrev four : Float
four = fin (pos (per_nanosecond * second))

abbrev full_bucket : TokenBucket
full_bucket = record {
  rate = four;
  burst = fin (pos (8 * one_token));
  tokens = fin (pos (8 * one_token));
  last = 5;
}

abbrev calls : List Time
calls = 5 ∷ 6 ∷ 2 ∷ 9 ∷ []

admitted-le-burst_example :
    let (b', n) = admitted refilled_exactly calls full_bucket in
    n * one_token + per_nanosecond * 5 ≤ 8 * one_token + per_nanosecond * b'.last + 4 * 0
admitted-le-burst_example =
    admitted-le-burst refilled_exactly four (8 * one_token) per_nanosecond 0
      (λ d t h. (t + per_nanosecond * d, refl, omega arith)) calls full_bucket (8 * one_token)
      (refl, refl, refl, omega arith)

with_defaults-with_defaults_example :
    IsFilled (with_defaults (record default_traffic_config { max_stack_requests = pos 0 }))
    × (with_defaults (with_defaults (record default_traffic_config { max_stack_requests = pos 0 }))
        ≡ with_defaults (record default_traffic_config { max_stack_requests = pos 0 }))
with_defaults-with_defaults_example =
    with_defaults-with_defaults (record default_traffic_config { max_stack_requests = pos 0 })

abbrev fresh : TrafficState
fresh = record {
  config = default_traffic_config;
  buckets = λ i. full_bucket;
  session = record { observed = λ i. 0; exceeded = λ i. 0; enforced = λ i. 0; malformed = λ i. 0 };
  aggregate = none;
}

allow-in_mode_example :
    let (on, passes) = allow refilled_exactly traffic_command 6 (in_mode true fresh) in
    let (off, passes') = allow refilled_exactly traffic_command 6 (in_mode false fresh) in
    (passes' ≡ true)
    × (passes ≡ (allow_token refilled_exactly 6 full_bucket).1)
    × (on.buckets ≡ off.buckets)
    × (on.session.observed ≡ off.session.observed)
    × (on.session.exceeded ≡ off.session.exceeded)
allow-in_mode_example = allow-in_mode refilled_exactly traffic_command 6 fresh

-- ===== src/Traffic.antt =====
-- session/traffic.go: limits on what a client may send, with one token bucket per kind of packet.
pub mod Config
pub mod Bucket
pub mod Bounds
pub mod Modes
use gobds.Base.{
  ℕ, ◌≡◌, Bool, true, false, not, ◌&&◌, Option, none, some, ◌==◌, nat_eq, leb, if◌then◌else◌,
}
use gobds.Base.Int.{ℤ, pos}
use gobds.Clock.{Time, Duration}
use gobds.Float.{Float}
use gobds.Claim.Metrics.{bump, to_ms}
use gobds.Traffic.Config.{RateLimit, TrafficConfig, with_defaults}
use gobds.Traffic.Bucket.{TokenBucket, new_token_bucket, allow_token, empty_bucket}

abbrev pub traffic_categories : ℕ
traffic_categories = 6

abbrev pub traffic_chat : ℕ
traffic_chat = 0

abbrev pub traffic_command : ℕ
traffic_command = 1

abbrev pub traffic_form : ℕ
traffic_form = 2

abbrev pub traffic_inventory : ℕ
traffic_inventory = 3

abbrev pub traffic_stack : ℕ
traffic_stack = 4

abbrev pub traffic_handler : ℕ
traffic_handler = 5

-- Arrays of uint64 counters, as functions of the category.
pub record TrafficMetrics : Type 0 where
  pub observed : ℕ → ℕ
  pub exceeded : ℕ → ℕ
  pub enforced : ℕ → ℕ
  pub malformed : ℕ → ℕ

unfoldable pub new_traffic_metrics : TrafficMetrics
new_traffic_metrics = record {
  observed = λ i. 0;
  exceeded = λ i. 0;
  enforced = λ i. 0;
  malformed = λ i. 0;
}

abbrev bump_if : Bool → ℕ → (ℕ → ℕ) → ℕ → ℕ
bump_if b i array = if b then bump i array else array

-- observe(category, exceeded, enforced); a category is never negative here.
unfoldable pub observe : ℕ → Bool → Bool → TrafficMetrics → TrafficMetrics
observe category is_exceeded is_enforced m =
    if leb traffic_categories category then m else record m {
      observed = bump category m.observed;
      exceeded = bump_if is_exceeded category m.exceeded;
      enforced = bump_if is_enforced category m.enforced;
    }

unfoldable pub malformed_packet : ℕ → TrafficMetrics → TrafficMetrics
malformed_packet category m =
    if leb traffic_categories category
    then m
    else record m { malformed = bump category m.malformed }

-- WriteDelta: the counters since the last time, all set to zero. The record's constant names and its
-- printing are left out.
unfoldable pub write_delta : Duration → TrafficMetrics → (ℤ × TrafficMetrics) × TrafficMetrics
write_delta period m = ((to_ms period, m), new_traffic_metrics)

-- A method on a pointer to metrics that may be nil.
abbrev pub on_metrics :
    (TrafficMetrics → TrafficMetrics) → Option TrafficMetrics → Option TrafficMetrics
on_metrics f none = none
on_metrics f (some m) = some (f m)

-- The aggregate is shared with the other sessions of a server.
pub record TrafficState : Type 0 where
  pub config : TrafficConfig
  pub buckets : ℕ → TokenBucket
  pub session : TrafficMetrics
  pub aggregate : Option TrafficMetrics

-- The buckets of the composite literal; the last one, of the handlers, is the zero value.
abbrev initial_buckets : TrafficConfig → Time → ℕ → TokenBucket
initial_buckets c now i =
    if i == traffic_chat
    then new_token_bucket c.chat now
    else if i == traffic_command
    then new_token_bucket c.commands now
    else if i == traffic_form
    then new_token_bucket c.modal_form_responses now
    else if i == traffic_inventory
    then new_token_bucket c.inventory_transactions now
    else if i == traffic_stack
    then new_token_bucket c.item_stack_requests now
    else empty_bucket

unfoldable pub new_traffic_state : TrafficConfig → Option TrafficMetrics → Time → TrafficState
new_traffic_state config aggregate now =
    let c = with_defaults config in
    record {
      config = c;
      buckets = initial_buckets c now;
      session = new_traffic_metrics;
      aggregate = aggregate;
    }

abbrev set_bucket : ℕ → TokenBucket → (ℕ → TokenBucket) → ℕ → TokenBucket
set_bucket i b array j = if j == i then b else array j

-- allow(category), which says whether the packet may pass.
unfoldable pub allow :
    (Float → Duration → Float → Float) → ℕ → Time → TrafficState → TrafficState × Bool
allow refilled category now t =
    let (bucket, passes) = allow_token refilled now (t.buckets category) in
    let is_exceeded = not passes in
    let is_enforced = is_exceeded && t.config.enforce in
    (
      record t {
        buckets = set_bucket category bucket t.buckets;
        session = observe category is_exceeded is_enforced t.session;
        aggregate = on_metrics (observe category is_exceeded is_enforced) t.aggregate;
      },
      not is_enforced,
    )

unfoldable pub malformed : ℕ → TrafficState → TrafficState
malformed category t = record t {
  session = malformed_packet category t.session;
  aggregate = on_metrics (malformed_packet category) t.aggregate;
}

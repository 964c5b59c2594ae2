-- ===== src/Claim/Metrics.antt =====
-- claim/metrics.go: counters of one server. A method on a nil receiver does nothing; the receivers
-- here are the metrics of a factory, which are never nil. An array is a function of its index.
pub mod Balance
use gobds.Base.{
  ℕ, ◌+◌, ◌-◌, ◌*◌, ◌/◌, ◌%◌, ◌^◌, ◌≡◌, String, Bool, true, false, ◌==◌, nat_eq, Option, none, some,
  ltb, leb, if◌then◌else◌,
}
use gobds.Base.Int.{ℤ, pos, negsuc, leb_ℤ, pos_part}
use gobds.Clock.{Time, Duration, microsecond, millisecond}
use gobds.Claim.Status.{QueryStatus, status_index}
use gobds.Claim.Snapshot.Build.{Snapshot, age}

abbrev pub metric_actions : ℕ
metric_actions = 9

abbrev pub metric_reasons : ℕ
metric_reasons = 8

-- A uint64 counter, which wraps round.
abbrev pub uint64_mod : ℕ
uint64_mod = 2 ^ 64

unfoldable pub add_uint64 : ℕ → ℕ → ℕ
add_uint64 a n = (a + n) % uint64_mod

-- array[i].Add(1)
unfoldable pub bump : ℕ → (ℕ → ℕ) → ℕ → ℕ
unfolding add_uint64
bump i array j = if j == i then add_uint64 (array j) 1 else array j

pub record Metrics : Type 0 where
  pub server : String
  pub refresh_attempts : ℕ
  pub refresh_success : ℕ
  pub refresh_failure : ℕ
  pub packets : ℕ
  pub seen : ℕ → ℕ
  pub forwarded : ℕ → ℕ
  pub denied : ℕ → ℕ
  pub reasons : ℕ → ℕ
  pub candidates : ℕ
  pub latency : ℕ → ℕ
  pub corrections_sent : ℕ
  pub corrections_skip : ℕ
  pub subchunk_decode : ℕ
  pub subchunk_modify : ℕ
  pub subchunk_error : ℕ

unfoldable pub new_metrics : String → Metrics
new_metrics server = record {
  server = server;
  refresh_attempts = 0;
  refresh_success = 0;
  refresh_failure = 0;
  packets = 0;
  seen = λ i. 0;
  forwarded = λ i. 0;
  denied = λ i. 0;
  reasons = λ i. 0;
  candidates = 0;
  latency = λ i. 0;
  corrections_sent = 0;
  corrections_skip = 0;
  subchunk_decode = 0;
  subchunk_modify = 0;
  subchunk_error = 0;
}

unfoldable pub refresh_attempt : Metrics → Metrics
refresh_attempt m = record m { refresh_attempts = add_uint64 m.refresh_attempts 1 }

unfoldable pub refresh_succeeded : Metrics → Metrics
refresh_succeeded m = record m { refresh_success = add_uint64 m.refresh_success 1 }

unfoldable pub refresh_failed : Metrics → Metrics
refresh_failed m = record m { refresh_failure = add_uint64 m.refresh_failure 1 }

unfoldable pub packet : Metrics → Metrics
packet m = record m { packets = add_uint64 m.packets 1 }

-- Action(index, forwarded)
unfoldable pub action : ℕ → Bool → Metrics → Metrics
action index is_forwarded m =
    if leb metric_actions index
    then m
    else if is_forwarded
    then record m { seen = bump index m.seen; forwarded = bump index m.forwarded }
    else record m { seen = bump index m.seen; denied = bump index m.denied }

unfoldable pub reason : QueryStatus → Metrics → Metrics
reason status m =
    if leb metric_reasons (status_index status)
    then m
    else record m { reasons = bump (status_index status) m.reasons }

-- Candidates(count): a count of items, so never negative
unfoldable pub add_candidates : ℕ → Metrics → Metrics
add_candidates count m = record m { candidates = add_uint64 m.candidates count }

unfoldable pub latency_bucket : Duration → ℕ
latency_bucket elapsed =
    if leb_ℤ elapsed (pos (10 * microsecond))
    then 0
    else if leb_ℤ elapsed (pos (50 * microsecond))
    then 1
    else if leb_ℤ elapsed (pos (250 * microsecond))
    then 2
    else if leb_ℤ elapsed (pos millisecond)
    then 3
    else 4

unfoldable pub record_latency : Duration → Metrics → Metrics
record_latency elapsed m = record m { latency = bump (latency_bucket elapsed) m.latency }

unfoldable pub correction : Bool → Metrics → Metrics
correction sent m =
    if sent
    then record m { corrections_sent = add_uint64 m.corrections_sent 1 }
    else record m { corrections_skip = add_uint64 m.corrections_skip 1 }

unfoldable pub subchunk_decoded : Metrics → Metrics
subchunk_decoded m = record m { subchunk_decode = add_uint64 m.subchunk_decode 1 }

unfoldable pub subchunk_modified : Metrics → Metrics
subchunk_modified m = record m { subchunk_modify = add_uint64 m.subchunk_modify 1 }

unfoldable pub subchunk_failed : Metrics → Metrics
subchunk_failed m = record m { subchunk_error = add_uint64 m.subchunk_error 1 }

-- The numbers of a snapshot in a metric record; the age is -1 where there is no snapshot.
pub record SnapshotMetric : Type 0 where
  pub age_ms : ℤ
  pub generation : ℕ
  pub claims : ℕ
  pub cells : ℕ

-- Milliseconds(), which rounds towards zero.
abbrev pub to_ms : Duration → ℤ
to_ms (pos n) = pos (n / millisecond)
to_ms (negsuc n) = if ltb (n + 1) millisecond then pos 0 else negsuc ((n + 1) / millisecond - 1)

unfoldable pub snapshot_metric : Option Snapshot → Time → SnapshotMetric
snapshot_metric none now = record { age_ms = negsuc 0; generation = 0; claims = 0; cells = 0 }
snapshot_metric (some s) now = record {
  age_ms = to_ms (age (some s) now);
  generation = s.generation;
  claims = s.claim_count;
  cells = s.cell_count;
}

-- What WriteDelta writes: the counters since the last time, and the snapshot's numbers. The constant
-- names in the record and its printing are left out.
pub record MetricRecord : Type 0 where
  pub counters : Metrics
  pub period_ms : ℤ
  pub snapshot : SnapshotMetric

-- WriteDelta(output, period, snapshot): every counter is read and set to zero.
unfoldable pub write_delta : Duration → Option Snapshot → Time → Metrics → MetricRecord × Metrics
write_delta period snapshot now m = (
  record { counters = m; period_ms = to_ms period; snapshot = snapshot_metric snapshot now },
  new_metrics m.server,
)

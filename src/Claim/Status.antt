-- ===== src/Claim/Status.antt =====
-- QueryStatus of claim/snapshot.go.
use gobds.Base.{ℕ, Eq}

pub data QueryStatus : Type 0 where
  ready missing stale unsupported unknown_dimension invalid overlap refresh_failed : QueryStatus

unfoldable pub QueryStatus-discrete : Discrete QueryStatus
QueryStatus-discrete = hlevel

instance abbrev pub status_eq : Eq QueryStatus
status_eq = record { dec = QueryStatus-discrete }

-- uint8(status)
abbrev pub status_index : QueryStatus → ℕ
status_index ready = 0
status_index missing = 1
status_index stale = 2
status_index unsupported = 3
status_index unknown_dimension = 4
status_index invalid = 5
status_index overlap = 6
status_index refresh_failed = 7

-- ===== src/Claim/Factory/Freshness.antt =====
-- When the snapshot of claim/factory.go may be used.
use gobds.Base.{◌≡◌, ◌↔◌, true, false, some, arith, Option-cases, inl, inr}
use gobds.Base.Int.{ltb_ℤ}
use gobds.Clock.{Time}
use gobds.Claim.Status.{ready, status_eq}
use gobds.Claim.Snapshot.Build.{Snapshot, supported, age}
use gobds.Claim.Factory.{Factory, query}

-- The conditions under which a query is ready.
abbrev pub IsFresh : Factory → Time → Snapshot → Type 0
IsFresh f now s =
    (f.snapshot ≡ some s)
    × (supported (some s) ≡ true)
    × (ltb_ℤ f.max_snapshot_age (age (some s) now) ≡ false)

ready-of-IsFresh :
    (f : Factory) (now : Time) (s : Snapshot) → IsFresh f now s → (query f now).1 ≡ ready
unfolding query
ready-of-IsFresh f now s h = ground arith

IsFresh-of-ready :
    (f : Factory) (now : Time)
    → (query f now).1 ≡ ready
    → (s : Snapshot) × IsFresh f now s × ((query f now).0 ≡ some s)
unfolding query
IsFresh-of-ready f now h = elim (Option-cases f.snapshot) [
  | inl e ↦ absurd (ground arith)
  | inr (s, e) ↦ (s, (e, ground arith, ground arith), ground arith)
]

-- A query is ready exactly when there is a snapshot whose versions are known and whose age is within
-- the limit, and it returns that snapshot.
pub query_ready_iff :
    (f : Factory) (now : Time)
    → ((query f now).1 ≡ ready) ↔ ((s : Snapshot) × IsFresh f now s × ((query f now).0 ≡ some s))
query_ready_iff f now = (IsFresh-of-ready f now, λ h. ready-of-IsFresh f now h.0 h.1)

-- A query returns the snapshot that is published, whatever its status.
pub query_snapshot : (f : Factory) (now : Time) → (query f now).0 ≡ f.snapshot
unfolding query
query_snapshot f now = ground arith

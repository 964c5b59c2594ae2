-- ===== src/Claim/Metrics/Balance.antt =====
-- The counters of claim/metrics.go against a history of decisions.
use gobds.Base.{
  ℕ, ◌+◌, ◌%◌, ◌<◌, ◌≤◌, ◌≡◌, ◌∙◌, ◌⊎◌, inl, inr, Bool-cases, refl, String, Bool, true, false, not,
  ◌&&◌, ◌==◌, nat_eq, List, [], ◌∷◌, arith, leb, if◌then◌else◌,
}
use gobds.Claim.Metrics.{Metrics, metric_actions, uint64_mod, add_uint64, bump, action, new_metrics}

-- The decisions of a server, each with its action and whether the packet was forwarded, as Action
-- records them one after the other.
unfoldable pub record_all : List (ℕ × Bool) → Metrics → Metrics
record_all [] m = m
record_all ((index, is_forwarded) ∷ rest) m = record_all rest (action index is_forwarded m)

-- How many of the decisions are about an action and forwarded it, or denied it.
unfoldable pub times : ℕ → Bool → List (ℕ × Bool) → ℕ
times i was_forwarded [] = 0
times i was_forwarded ((index, is_forwarded) ∷ rest) =
    let n = times i was_forwarded rest in
    if index == i && (if was_forwarded then is_forwarded else not is_forwarded) then n + 1 else n

-- The counters of one action after some decisions, modulo 2^64.
abbrev Adds : ℕ → List (ℕ × Bool) → Metrics → Metrics → Type 0
Adds i decisions before after =
    (after.forwarded i % uint64_mod ≡ (before.forwarded i + times i true decisions) % uint64_mod)
    × (after.denied i % uint64_mod ≡ (before.denied i + times i false decisions) % uint64_mod)
    × (after.seen i % uint64_mod
        ≡ (before.seen i + times i true decisions + times i false decisions) % uint64_mod)

-- No counter leaves its range.
abbrev InRange : ℕ → Metrics → Type 0
InRange i m = (m.forwarded i < uint64_mod) × (m.denied i < uint64_mod) × (m.seen i < uint64_mod)

module _ (i index : ℕ) (is_forwarded : Bool) (m : Metrics) where
  action-InRange : InRange i m → InRange i (action index is_forwarded m)
  unfolding action bump add_uint64
  action-InRange (f, d, s) = (ground arith, ground arith, ground arith)

  action-Adds :
      i < metric_actions → Adds i ((index, is_forwarded) ∷ []) m (action index is_forwarded m)
  unfolding action bump add_uint64 times
  action-Adds h = (ground arith, ground arith, ground arith)

  action-beyond :
      metric_actions ≤ i
      → ((action index is_forwarded m).forwarded i ≡ m.forwarded i)
        × ((action index is_forwarded m).denied i ≡ m.denied i)
        × ((action index is_forwarded m).seen i ≡ m.seen i)
  unfolding action bump add_uint64
  action-beyond h = (ground arith, ground arith, ground arith)

-- One decision first, and then the rest.
times_step :
    (i : ℕ) (was_forwarded : Bool) (index : ℕ) (b : Bool) (rest : List (ℕ × Bool))
    → times i was_forwarded ((index, b) ∷ rest)
      ≡ times i was_forwarded ((index, b) ∷ []) + times i was_forwarded rest
unfolding times
times_step i true index b rest = ground arith
times_step i false index b rest = ground arith

record_all-Adds :
    (i : ℕ) (decisions : List (ℕ × Bool)) (m : Metrics)
    → i < metric_actions
    → Adds i decisions m (record_all decisions m)
unfolding record_all times
record_all-Adds i [] m h = (omega arith, omega arith, omega arith)
record_all-Adds i ((index, b) ∷ rest) m h =
    let (f, d, s) = action-Adds i index b m h in
    let (g, e, u) = record_all-Adds i rest (action index b m) h in
    let yes_step = times_step i true index b rest in
    let no_step = times_step i false index b rest in (omega arith, omega arith, omega arith)

record_all-InRange :
    (i : ℕ) (decisions : List (ℕ × Bool)) (m : Metrics)
    → InRange i m
    → InRange i (record_all decisions m)
unfolding record_all
record_all-InRange i [] m r = r
record_all-InRange i ((index, b) ∷ rest) m r =
    record_all-InRange i rest (action index b m) (action-InRange i index b m r)

record_all-beyond :
    (i : ℕ) (decisions : List (ℕ × Bool)) (m : Metrics)
    → metric_actions ≤ i
    → ((record_all decisions m).forwarded i ≡ m.forwarded i)
      × ((record_all decisions m).denied i ≡ m.denied i)
      × ((record_all decisions m).seen i ≡ m.seen i)
unfolding record_all
record_all-beyond i [] m h = (refl, refl, refl)
record_all-beyond i ((index, b) ∷ rest) m h =
    let (f, d, s) = action-beyond i index b m h in
    let (g, e, u) = record_all-beyond i rest (action index b m) h in (g ∙ f, e ∙ d, u ∙ s)

-- The counters of action i, for the decisions recorded so far.
abbrev pub Counts : ℕ → List (ℕ × Bool) → Metrics → Type 0
Counts i decisions m =
    let denials = times i false decisions in
    let passes = times i true decisions in
    (m.forwarded i ≡ passes % uint64_mod)
    × (m.denied i ≡ denials % uint64_mod)
    × (m.seen i ≡ (passes + denials) % uint64_mod)

-- Whatever decisions new metrics record, in whatever order, they count for each of the nine actions
-- those that forwarded it, those that denied it, and the two together, modulo 2^64; for any other
-- index they count nothing.
pub record_all-Counts :
    (server : String) (decisions : List (ℕ × Bool)) (i : ℕ)
    → let m = record_all decisions (new_metrics server) in
      ((i < metric_actions) × Counts i decisions m)
      ⊎ ((metric_actions ≤ i) × (m.forwarded i ≡ 0) × (m.denied i ≡ 0) × (m.seen i ≡ 0))
unfolding new_metrics
record_all-Counts server decisions i = elim (Bool-cases (leb metric_actions i)) [
  | inl beyond ↦
      let k : metric_actions ≤ i = ground arith in
      let (f, d, s) = record_all-beyond i decisions (new_metrics server) k in inr (k, f, d, s)
  | inr among ↦
      let h : i < metric_actions = ground arith in
      let (g, e, u) = record_all-Adds i decisions (new_metrics server) h in
      let (f, d, s) =
        record_all-InRange i decisions (new_metrics server)
          (omega arith, omega arith, omega arith) in
      inl (h, (omega arith, omega arith, omega arith))
]

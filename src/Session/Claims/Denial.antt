-- ===== src/Session/Claims/Denial.antt =====
-- When a session's action is denied (session/util_claim_action.go).
use gobds.Base.{
  ◌≡◌, ◌≢◌, ◌↔◌, refl, sym, ap, ◌∙◌, subst, String, true, false, ◌&&◌, Option, none, some, [], ◌∷◌,
  length, keep, ◌==◌, string_eq, inl, inr, Bool-cases, arith,
}
use gobds.Base.Int.{ℤ}
use gobds.Clock.{Time}
use gobds.Float.{Float}
use gobds.Geometry.{claim_contains}
use gobds.Claim.Model.{Vector3, PlayerClaim}
use gobds.Claim.Status.{
  QueryStatus, ready, missing, stale, unsupported, unknown_dimension, invalid, overlap,
  refresh_failed,
}
use gobds.Claim.Metrics
use gobds.Claim.Metrics.{Metrics}
use gobds.Claim.Snapshot.Build.{Snapshot, candidates}
use gobds.Claim.Factory.{Factory, query}
use gobds.Claim.Factory.Freshness.{query_snapshot}
use gobds.Claim.Factory.Refresh.{IsSound, OnSnapshot}
use gobds.Policy.{
  ClaimAction, Payload, ClaimActor, ClaimActionData, claim_action_data_from, claim_action_permitted,
}
use gobds.Session.Dimension.{claim_dimension_from_int}
use gobds.Session.Claims.{
  Caller, decide_match, decide_in, decide_status, decide_data, decide,
  session_claim_action_permitted,
}
use gobds.Session.Claims.Matching.{
  match_of, single_claim_at-match_of, match_of-eq-some, decide_match-eq-false,
}

-- The claim in which an action is denied: the only one of its dimension that contains the position,
-- found among all the claims of the snapshot, and its policy refuses the action.
abbrev pub DeniedBy : Snapshot → String → Vector3 → ClaimActor → ClaimAction → Payload → Type 0
DeniedBy s dimension v actor action payload =
    (c : PlayerClaim) × (keep (λ c. c.location.dimension == dimension && claim_contains c v.x v.z)
        s.claims
      ≡ c ∷ [])
    × (claim_action_permitted c actor action payload ≡ false)

module _ (wild : Float → ℤ) (caller : Caller) (action : ClaimAction) (payload : Payload) where
  DeniedBy-of-decide_in :
      (s : Snapshot) (dimension : String) (v : Vector3) (m : Metrics)
      → IsSound wild s
      → (decide_in wild caller action payload v (some s) (some dimension) m).0 ≡ false
      → DeniedBy s dimension v caller.actor action payload
  unfolding decide_in
  DeniedBy-of-decide_in s dimension v m sound h =
      let found = candidates wild (some s) dimension v.x v.z in
      let (c, e, denied) = decide_match-eq-false caller.actor action payload _ _ h in
      (
        c,
        sym (sound.indexed dimension v.x v.z)
            ∙ match_of-eq-some _ c (sym (single_claim_at-match_of found v.x v.z) ∙ e),
        denied,
      )

  decide_in-of-DeniedBy :
      (s : Snapshot) (dimension : String) (v : Vector3) (m : Metrics)
      → IsSound wild s
      → DeniedBy s dimension v caller.actor action payload
      → (decide_in wild caller action payload v (some s) (some dimension) m).0 ≡ false
  unfolding decide_in decide_match
  decide_in-of-DeniedBy s dimension v m sound (c, e, denied) =
      let found = candidates wild (some s) dimension v.x v.z in
      subst
        (λ p.
          (decide_match caller.actor action payload p (Metrics.add_candidates (length found) m)).0
          ≡ false)
        (sym (
          single_claim_at-match_of found v.x v.z
          ∙ ap match_of (sound.indexed dimension v.x v.z ∙ e)))
        denied

  -- Everything that a denial takes.
  pub record Denial (now : Time) (f : Factory) : Type 0 where
    pub prefiltered : caller.claim_prefilter ≡ true
    pub data' : ClaimActionData
    pub readable : claim_action_data_from payload ≡ some data'
    pub snapshot : Snapshot
    pub fresh : query f now ≡ (some snapshot, ready)
    pub dimension : String
    pub mapped : claim_dimension_from_int caller.dimension caller.dimensions ≡ some dimension
    pub denied : DeniedBy snapshot dimension data'.position caller.actor action payload

IsSound-of-fresh :
    (wild : Float → ℤ) (now : Time) (f : Factory) (s : Snapshot)
    → OnSnapshot (IsSound wild) f.snapshot
    → query f now ≡ (some s, ready)
    → IsSound wild s
IsSound-of-fresh wild now f s sound fresh =
    subst (OnSnapshot (IsSound wild)) (sym (query_snapshot f now) ∙ ap (λ q. q.0) fresh) sound

-- A query without a snapshot is not ready.
query-none : (now : Time) (f : Factory) → query f now ≢ (none, ready)
unfolding query
query-none now f h = ground arith

module _ (wild : Float → ℤ) (caller : Caller) (action : ClaimAction) (payload : Payload) where
  mapped-of-decide_in :
      (v : Vector3) (s : Option Snapshot) (dimension : Option String) (m : Metrics)
      → (decide_in wild caller action payload v s dimension m).0 ≡ false
      → (d : String) × (dimension ≡ some d)
  unfolding decide_in
  mapped-of-decide_in v s none m h = absurd (ground arith)
  mapped-of-decide_in v s (some d) m h = (d, refl)

  ready-of-decide_status :
      (v : Vector3) (q : Option Snapshot × QueryStatus) (m : Metrics)
      → (decide_status wild caller action payload v q m).0 ≡ false
      → q.1 ≡ ready
  unfolding decide_status
  ready-of-decide_status v (s, ready) m h = refl
  ready-of-decide_status v (s, missing) m h = absurd (ground arith)
  ready-of-decide_status v (s, stale) m h = absurd (ground arith)
  ready-of-decide_status v (s, unsupported) m h = absurd (ground arith)
  ready-of-decide_status v (s, unknown_dimension) m h = absurd (ground arith)
  ready-of-decide_status v (s, invalid) m h = absurd (ground arith)
  ready-of-decide_status v (s, overlap) m h = absurd (ground arith)
  ready-of-decide_status v (s, refresh_failed) m h = absurd (ground arith)

  readable-of-decide_data :
      (o : Option ClaimActionData) (q : Option Snapshot × QueryStatus) (m : Metrics)
      → (decide_data wild caller action payload o q m).0 ≡ false
      → (d : ClaimActionData) × (o ≡ some d)
  unfolding decide_data
  readable-of-decide_data none q m h = absurd (ground arith)
  readable-of-decide_data (some d) q m h = (d, refl)

-- A query that is ready has a snapshot.
snapshot-of-ready :
    (now : Time) (f : Factory) (q : Option Snapshot × QueryStatus)
    → query f now ≡ q
    → q.1 ≡ ready
    → (s : Snapshot) × (query f now ≡ (some s, ready))
snapshot-of-ready now f (none, status) e h = absurd (query-none now f (e ∙ ap (λ t. (none, t)) h))
snapshot-of-ready now f (some s, status) e h = (s, e ∙ ap (λ t. (some s, t)) h)

module _ (wild : Float → ℤ) (caller : Caller) (action : ClaimAction) (payload : Payload)
    (now : Time) (f : Factory) (sound : OnSnapshot (IsSound wild) f.snapshot) where
  decide-of-Denial :
      Denial wild caller action payload now f → (decide wild caller action payload now f).0 ≡ false
  unfolding decide decide_data decide_status decide_in
  decide-of-Denial d =
      let in_dimension : (o : Option String) → Type 0 = λ o.
        (decide_in wild caller action payload d.data'.position (some d.snapshot) o f.metrics).0
        ≡ false in
      let in_query : (q : Option Snapshot × QueryStatus) → Type 0 =
        λ q. (decide_status wild caller action payload d.data'.position q f.metrics).0 ≡ false in
      let in_data : (o : Option ClaimActionData) → Type 0 =
        λ o. (decide_data wild caller action payload o (query f now) f.metrics).0 ≡ false in
      rw d.prefiltered (
        subst in_data (sym d.readable) (
          subst in_query (sym d.fresh) (
            subst in_dimension (sym d.mapped) (
              decide_in-of-DeniedBy wild caller action payload d.snapshot d.dimension
                d.data'.position f.metrics (IsSound-of-fresh wild now f d.snapshot sound d.fresh)
                d.denied))))

  Denial-of-decide_data :
      caller.claim_prefilter ≡ true
      → (decide_data wild caller action payload
          (claim_action_data_from payload)
          (query f now)
          f.metrics).0
        ≡ false
      → Denial wild caller action payload now f
  unfolding decide_data decide_status
  Denial-of-decide_data on h =
      let o = claim_action_data_from payload in
      let in_query = λ (q : Option Snapshot × QueryStatus) (d : ClaimActionData).
        (decide_status wild caller action payload d.position q f.metrics).0 ≡ false in
      let (d, readable) =
        readable-of-decide_data wild caller action payload o (query f now) f.metrics h in
      let read : in_query (query f now) d =
        subst (λ o. (decide_data wild caller action payload o (query f now) f.metrics).0 ≡ false)
          readable h in
      let is_ready =
        ready-of-decide_status wild caller action payload d.position (query f now) f.metrics read in
      let (s, fresh) = snapshot-of-ready now f (query f now) refl is_ready in
      let asked : in_query (some s, ready) d = subst (λ q. in_query q d) fresh read in
      let (dimension, mapped) =
        mapped-of-decide_in wild caller action payload d.position (some s)
          (claim_dimension_from_int caller.dimension caller.dimensions) f.metrics asked in
      record {
        prefiltered = on;
        data' = d;
        readable = readable;
        snapshot = s;
        fresh = fresh;
        dimension = dimension;
        mapped = mapped;
        denied =
            DeniedBy-of-decide_in wild caller action payload s dimension d.position f.metrics
              (IsSound-of-fresh wild now f s sound fresh)
              (subst
                (λ o.
                  (decide_in wild caller action payload d.position (some s) o f.metrics).0 ≡ false)
                mapped asked);
      }

  Denial-of-decide :
      (decide wild caller action payload now f).0 ≡ false → Denial wild caller action payload now f
  unfolding decide
  Denial-of-decide h = elim (Bool-cases caller.claim_prefilter) [
    | inr off ↦ absurd (ground arith)
    | inl on ↦ Denial-of-decide_data on (ground arith)
  ]

  -- With a snapshot that a factory obtained from a service (`sound`), an action of a session is
  -- denied if and only if the prefilter is on, the payload has a position, the snapshot is fresh at
  -- that time, the session's dimension has a name, and in that dimension exactly one claim of
  -- the snapshot contains the position and its policy refuses the action to the player.
  pub session_claim_action_permitted_iff :
      (session_claim_action_permitted wild caller action payload now (some f)).0 ≡ false
      ↔ Denial wild caller action payload now f
  unfolding session_claim_action_permitted
  session_claim_action_permitted_iff = (Denial-of-decide, decide-of-Denial)

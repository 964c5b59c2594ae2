-- ===== src/Session/Corrective/Spacing.antt =====
-- The spacing of corrections (allowCorrective of session/session.go).
use gobds.Base.{
  ◌≡◌, subst, ==→≡, Bool, false, List, [], ◌∷◌, ◌==◌, if◌then◌else◌, arith, Bool-cases, inl, inr,
}
use gobds.Base.Int.{ℤ, ltb_ℤ}
use gobds.Base.Dict.{Dict, insert, lookup-insert}
use gobds.Clock.{Time, Duration, sub_time}
use gobds.Area.{ChunkPos}
use gobds.Session.State.{CorrectiveKey, Session}
use gobds.Session.Corrective.{key_of, last_correction, allow_corrective, corrective_key_eq}

-- A correction that is asked for: the session's dimension, the chunk and the time.
abbrev pub Request : Type 0
Request = ℤ × ChunkPos × Time

-- The session in a dimension, with the rest of it kept.
abbrev pub in_dimension : ℤ → Session → Session
in_dimension d s = record s { player = record (s.player) { dimension = d } }

abbrev same_key : CorrectiveKey → ℤ → ChunkPos → Bool
same_key key d chunk = record { dimension = d; x = chunk.x; z = chunk.z } == key

-- The times at which a key is allowed a correction, over a run of requests for any keys.
unfoldable pub allowed_at : CorrectiveKey → Duration → List Request → Session → List Time
allowed_at key interval [] s = []
allowed_at key interval ((d, chunk, now) ∷ rest) s =
    let (s', passes) = allow_corrective chunk interval now (in_dimension d s) in
    let later = allowed_at key interval rest s' in
    if passes then if same_key key d chunk then now ∷ later else later else later

-- Each time is at least the interval after the one before.
abbrev pub Spaced : Duration → Time → List Time → Type 0
Spaced interval last [] = Unit {0}
Spaced interval last (t ∷ ts) = (ltb_ℤ (sub_time t last) interval ≡ false) × Spaced interval t ts

last_correction-insert :
    (key k : CorrectiveKey) (now : Time) (m : Dict CorrectiveKey Time)
    → last_correction key (insert k now m) ≡ (if k == key then now else last_correction key m)
last_correction-insert key k now m = ground (arith, lookup-insert key k now m)

module _ (key : CorrectiveKey) (interval : Duration) where
  abbrev After : Time → Session → List Request → Type 0
  After last s rest = Spaced interval last (allowed_at key interval rest s)

  abbrev allowed : ℤ → ChunkPos → Time → Session → Session
  allowed d chunk now s = record (in_dimension d s) {
    corrective = insert (key_of (in_dimension d s) chunk) now s.corrective;
  }

  of_allowed :
      (d : ℤ) (chunk : ChunkPos) (now : Time) (rest : List Request) (s : Session)
      → let s' = allowed d chunk now s in
        let later = allowed_at key interval rest s' in
        After (last_correction key s'.corrective) s' rest
        → ltb_ℤ
            (sub_time now (last_correction (key_of (in_dimension d s) chunk) s.corrective))
            interval
          ≡ false
        → Spaced interval
            (last_correction key s.corrective)
            (if same_key key d chunk then now ∷ later else later)
  of_allowed d chunk now rest s after long =
      let k = key_of (in_dimension d s) chunk in
      let later = allowed_at key interval rest (allowed d chunk now s) in
      let w : Spaced interval (if k == key then now else last_correction key s.corrective) later =
        subst (λ t. Spaced interval t later) (last_correction-insert key k now s.corrective)
          after in
      elim (Bool-cases (k == key)) [
        | inl same ↦ rw same (
          subst (λ j. ltb_ℤ (sub_time now (last_correction j s.corrective)) interval ≡ false)
              (==→≡ k key same) long,
          rw same at w,
        )
        | inr other ↦ rw other (rw other at w)
      ]

  -- What one request adds to the times.
  Spaced-step :
      (d : ℤ) (chunk : ChunkPos) (now : Time) (rest : List Request) (s : Session)
      → ((s' : Session) → After (last_correction key s'.corrective) s' rest)
      → After (last_correction key s.corrective) s ((d, chunk, now) ∷ rest)
  unfolding allowed_at allow_corrective
  Spaced-step d chunk now rest s later =
      let k = key_of (in_dimension d s) chunk in
      elim (Bool-cases (ltb_ℤ (sub_time now (last_correction k s.corrective)) interval)) [
        | inl short ↦ rw short (later (in_dimension d s))
        | inr long ↦ rw long (of_allowed d chunk now rest s (later (allowed d chunk now s)) long)
      ]

  -- The corrections that a session lets pass for one key are at least the interval apart, whatever
  -- is asked for, in whatever order, and also apart from the last one before.
  pub allowed_at-Spaced :
      (requests : List Request) (s : Session)
      → Spaced interval (last_correction key s.corrective) (allowed_at key interval requests s)
  unfolding allowed_at
  allowed_at-Spaced [] s = tt
  allowed_at-Spaced ((d, chunk, now) ∷ rest) s =
      Spaced-step d chunk now rest s (allowed_at-Spaced rest)

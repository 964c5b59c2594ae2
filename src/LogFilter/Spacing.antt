-- ===== src/LogFilter/Spacing.antt =====
-- How often a known kind of noise is logged (filterlog.go).
use gobds.Base.{
  ◌≡◌, ◌≢◌, ◌⊎◌, refl, sym, ◌∙◌, subst, String, Bool, true, false, ◌&&◌, Option, none, some, List,
  [], ◌∷◌, ◌==◌, string_eq, Bool-cases, Option-cases, inl, inr, arith, if◌then◌else◌,
}
use gobds.Base.Int.{ltb_ℤ}
use gobds.Base.Dict.{lookup, lookup-insert}
use gobds.Clock.{Time, Duration, sub_time}
use gobds.LogFilter.{
  RateLimiterState, LogRecord, recorded, allow_record, handle_key, handle_record, noise_key,
}

-- The times at which records of one kind are logged, of all records that arrive.
unfoldable pub logged : String → List (Time × LogRecord) → RateLimiterState → List Time
logged key [] s = []
logged key ((now, r) ∷ rest) s =
    let (s', passes) = handle_record r now s in
    let later = logged key rest s' in if noise_key r == key && passes then now ∷ later else later

abbrev IsFar : Duration → Option Time → Time → Type 0
IsFar window none now = Unit {0}
IsFar window (some last) now = ltb_ℤ (sub_time now last) window ≡ false

-- Each time is a window or more after the one before, from a last one on.
abbrev pub Spaced : Duration → Option Time → List Time → Type 0
Spaced window last [] = Unit {0}
Spaced window last (t ∷ ts) = IsFar window last t × Spaced window (some t) ts

-- The record is let through, long after the last one of its kind; or nothing changes.
abbrev Lets : String → Time → RateLimiterState → RateLimiterState × Bool → Type 0
Lets k now s r = ((r ≡ recorded k now s) × IsFar s.window (lookup k s.last) now) ⊎ (r ≡ (s, false))

allow_record-Lets :
    (k : String) (now : Time) (s : RateLimiterState) → Lets k now s (allow_record k now s)
unfolding allow_record
allow_record-Lets k now s = elim (Option-cases (lookup k s.last)) [
  | inl e ↦ inl (rw (e, allow_record) refl, rw (e) tt)
  | inr (last, e) ↦ elim (Bool-cases (ltb_ℤ (sub_time now last) s.window)) [
    | inl f ↦ inr (rw (e, f, allow_record) refl)
    | inr f ↦ inl (rw (e, f, allow_record) refl, rw (e) f)
  ]
]

unlogged :
    (P : List Time → Type 0) (b : Bool) (x y : List Time) → P y → P (if b && false then x else y)
unlogged P true x y h = h
unlogged P false x y h = h

other_kind :
    (P : List Time → Type 0) (key : String) (x y : List Time)
    → key ≢ ""
    → P y
    → P (if "" == key && true then x else y)
other_kind P key x y named h = elim (Bool-cases ("" == key)) [
  | inl e ↦ absurd (named (ground arith))
  | inr e ↦ rw (e) h
]

module _ (key k : String) (now : Time) (s : RateLimiterState) where
  abbrev next : RateLimiterState
  next = (recorded k now s).0

  found_same : (k == key) ≡ true → lookup key next.last ≡ some now
  found_same e =
      lookup-insert key k now s.last ∙ (let f : (key == k) ≡ true = ground arith in rw (f) refl)

  found_other : (k == key) ≡ false → lookup key next.last ≡ lookup key s.last
  found_other e =
      lookup-insert key k now s.last ∙ (let f : (key == k) ≡ false = ground arith in rw (f) refl)

  -- What one record adds to the times, when it is let through.
  Spaced-recorded :
      (ts : List Time)
      → IsFar s.window (lookup k s.last) now
      → Spaced s.window (lookup key next.last) ts
      → Spaced s.window (lookup key s.last) (if k == key && true then now ∷ ts else ts)
  Spaced-recorded ts far later = elim (Bool-cases (k == key)) [
    | inl e ↦
        let same : k ≡ key = ground arith in
        rw (e) (
          subst (λ j. IsFar s.window (lookup j s.last) now) same far,
          subst (λ o. Spaced s.window o ts) (found_same e) later,
        )
    | inr e ↦ rw (e) (subst (λ o. Spaced s.window o ts) (found_other e) later)
  ]

  Spaced-step :
      (r : RateLimiterState × Bool) (times : RateLimiterState → List Time)
      → ((t : RateLimiterState)
          → t.window ≡ s.window
          → Spaced s.window (lookup key t.last) (times t))
      → Lets k now s r
      → Spaced s.window (lookup key s.last) (if k == key && r.1 then now ∷ times r.0 else times r.0)
  Spaced-step r times later (inl (e, far)) =
      rw (e) (Spaced-recorded (times next) far (later next refl))
  Spaced-step r times later (inr e) =
      rw (e) (unlogged (Spaced s.window (lookup key s.last)) (k == key) _ _ (later s refl))

  -- The same, for a record of any kind.
  Spaced-handle_key :
      (times : RateLimiterState → List Time)
      → key ≢ ""
      → ((t : RateLimiterState)
          → t.window ≡ s.window
          → Spaced s.window (lookup key t.last) (times t))
      → let r = handle_key k now s in
        Spaced s.window (lookup key s.last) (if k == key && r.1 then now ∷ times r.0 else times r.0)
  unfolding handle_key
  Spaced-handle_key times named later = elim (Bool-cases (k == "")) [
    | inl e ↦
        let same : k ≡ "" = ground arith in
        rw (e) (
          subst
            (λ j.
              Spaced s.window (lookup key s.last)
                (if j == key && true then now ∷ times s else times s))
            (sym same)
            (other_kind (Spaced s.window (lookup key s.last)) key _ _ named (later s refl)))
    | inr e ↦ rw (e) (Spaced-step (allow_record k now s) times later (allow_record-Lets k now s))
  ]

-- The records of one known kind of noise that are logged are a window or more apart, whatever else
-- arrives, and also apart from the last one before.
pub logged-Spaced :
    (key : String) (records : List (Time × LogRecord)) (s : RateLimiterState) (window : Duration)
    → key ≢ ""
    → s.window ≡ window
    → Spaced window (lookup key s.last) (logged key records s)
unfolding logged handle_record
logged-Spaced key [] s window named e = tt
logged-Spaced key ((now, r) ∷ rest) s window named e =
    subst (λ w. Spaced w (lookup key s.last) (logged key ((now, r) ∷ rest) s)) e
      (Spaced-handle_key key (noise_key r) now s (logged key rest) named
        (λ t f. logged-Spaced key rest t s.window named f))

-- ===== src/Afk/Kicks.antt =====
-- Whom gobds/afk.go kicks.
use gobds.Base.{
  ◌+◌, ◌≤◌, ◌≡◌, refl, false, Option, none, some, List, [], ◌∷◌, length, All, if_both, if_on_true,
  if_on_false, arith, Bool-cases, ◌⊎◌, inl, inr,
}
use gobds.Base.Int.{ℤ, pos, pos_part, neg_part, ◌-ℤ◌, ◌≤ℤ◌, leb_ℤ, ltb_ℤ, -ℤ_parts}
use gobds.Clock.{Time}
use gobds.Admission.{ServerStatus}
use gobds.Afk.{
  AfkTimer, Fullness, Player, Candidate, warn_each, warn_final, sort_longest, kicks, eligible,
  candidates_of, Evaluation, softly, near_capacity, evaluate_afk,
}
use gobds.Afk.Order.{
  All-kicks, NoLongerThan, All-sort_longest, All-of-sort_longest, All-keep, Descends,
  sort_longest-Descends,
}

abbrev pub Among : Candidate → List Candidate → Type 0
Among d [] = ⊥
Among d (c ∷ cs) = (d ≡ c) ⊎ Among d cs

-- A candidate is kicked, or has been idle no longer than any that is.
abbrev pub Yields : List Candidate → Candidate → Type 0
Yields kicked d = Among d kicked ⊎ NoLongerThan kicked d

All-Yields-none : (cs : List Candidate) → All (Yields []) cs
All-Yields-none [] = tt
All-Yields-none (c ∷ cs) = (inr tt, All-Yields-none cs)

Yields-cons :
    (c : Candidate) (ks cs : List Candidate)
    → All (λ d. d.dur ≤ℤ c.dur) cs
    → All (Yields ks) cs
    → All (Yields (c ∷ ks)) cs
Yields-cons c ks [] h k = tt
Yields-cons c ks (d ∷ ds) (h, hs) (inl among, rest) = (inl (inr among), Yields-cons c ks ds hs rest)
Yields-cons c ks (d ∷ ds) (h, hs) (inr none_longer, rest) =
    (inr (h, none_longer), Yields-cons c ks ds hs rest)

kicks-Yields :
    (threshold remaining : ℤ) (cs : List Candidate)
    → Descends cs
    → All (Yields (kicks threshold remaining cs)) cs
unfolding kicks
kicks-Yields threshold remaining [] h = tt
kicks-Yields threshold remaining (c ∷ cs) (low, h) =
    if_both (λ ks. All (Yields ks) (c ∷ cs)) (ltb_ℤ remaining threshold) (All-Yields-none (c ∷ cs))
      (
        inl (inl refl),
        Yields-cons c (kicks threshold (remaining -ℤ pos 1) cs) cs low
            (kicks-Yields threshold (remaining -ℤ pos 1) cs h),
      )

-- Each kick has its reason: when the last one came, the players that remained were not fewer than the
-- threshold.
abbrev pub IsMeasured : ℤ → ℤ → List Candidate → Type 0
IsMeasured threshold remaining ks =
    (ks ≡ [])
    ⊎ (pos_part threshold + neg_part remaining + length ks
        ≤ pos_part remaining + neg_part threshold + 1)

IsMeasured-cons :
    (threshold remaining : ℤ) (c : Candidate) (ks : List Candidate)
    → ltb_ℤ remaining threshold ≡ false
    → IsMeasured threshold (remaining -ℤ pos 1) ks
    → IsMeasured threshold remaining (c ∷ ks)
IsMeasured-cons threshold remaining c ks h (inl empty) = inr (ground arith)
IsMeasured-cons threshold remaining c ks h (inr m) =
    inr (ground (arith, -ℤ_parts remaining (pos 1)))

kicks-IsMeasured :
    (threshold remaining : ℤ) (cs : List Candidate)
    → IsMeasured threshold remaining (kicks threshold remaining cs)
unfolding kicks
kicks-IsMeasured threshold remaining [] = inl refl
kicks-IsMeasured threshold remaining (c ∷ cs) = elim (Bool-cases (ltb_ℤ remaining threshold)) [
  | inl fewer ↦ rw fewer (inl refl)
  | inr enough ↦ rw enough (
      IsMeasured-cons threshold remaining c (kicks threshold (remaining -ℤ pos 1) cs) enough
        (kicks-IsMeasured threshold (remaining -ℤ pos 1) cs))
]

-- Whom an evaluation kicks: players who have been idle for the time-out, and with each of them all
-- who have been idle longer.
abbrev pub IsFair : AfkTimer → Evaluation → Type 0
IsFair timer e =
    All (λ c. timer.timeout_duration ≤ℤ c.dur) e.kicked
    × All (Yields e.kicked) (eligible timer e.candidates)

near_capacity-IsFair :
    (timer : AfkTimer) (fullness : Fullness) (status : ServerStatus) (e : Evaluation)
    → IsFair timer (near_capacity timer fullness status e)
near_capacity-IsFair timer fullness status e =
    let cs = eligible timer (warn_each (warn_final timer) e.candidates).0 in
    let threshold = fullness.threshold status.max_players in
    (
      All-kicks (λ c. timer.timeout_duration ≤ℤ c.dur) threshold status.player_count
          (sort_longest cs) (All-sort_longest _ cs (All-keep _ _ _ (λ c h. ground arith))),
      All-of-sort_longest _ cs
          (kicks-Yields threshold status.player_count (sort_longest cs) (sort_longest-Descends cs)),
    )

-- How many it kicks.
abbrev pub Measured : Fullness → Option ServerStatus → Evaluation → Type 0
Measured fullness none e = e.kicked ≡ []
Measured fullness (some status) e =
    IsMeasured (fullness.threshold status.max_players) status.player_count e.kicked
    × ((fullness.below status.player_count status.max_players ≡ false) ⊎ (e.kicked ≡ []))

near_capacity-Measured :
    (timer : AfkTimer) (fullness : Fullness) (status : ServerStatus) (e : Evaluation)
    → fullness.below status.player_count status.max_players ≡ false
    → Measured fullness (some status) (near_capacity timer fullness status e)
near_capacity-Measured timer fullness status e h = (
  kicks-IsMeasured (fullness.threshold status.max_players) status.player_count
      (sort_longest (eligible timer (warn_each (warn_final timer) e.candidates).0)),
  inl h,
)

-- An evaluation kicks only players who have been idle for the time-out, and never one of them before
-- another who has been idle longer: every player past the time-out is kicked or has been idle no
-- longer than each one that is. It kicks nobody without a status or below the fullness, and each
-- kick comes while the players that remain are not fewer than the threshold.
pub evaluate_afk-IsFair :
    (timer : AfkTimer) (fullness : Fullness) (status : Option ServerStatus) (now : Time)
    (players : List Player)
    → let e = evaluate_afk timer fullness status now players in
      IsFair timer e × Measured fullness status e
unfolding evaluate_afk
evaluate_afk-IsFair timer fullness none now players = ((tt, All-Yields-none _), refl)
evaluate_afk-IsFair timer fullness (some status) now players =
    let e = softly timer (candidates_of now players) in
    let Goal : Evaluation → Type 0 = λ r. IsFair timer r × Measured fullness (some status) r in
    let idle : Goal e =
      ((tt, All-Yields-none (eligible timer e.candidates)), (inl refl, inr refl)) in
    if_both Goal (leb_ℤ status.max_players (pos 0)) idle
      (elim (Bool-cases (fullness.below status.player_count status.max_players)) [
        | inl below ↦ if_on_true Goal _ below idle
        | inr above ↦ if_on_false Goal _ above (
          near_capacity-IsFair timer fullness status e,
          near_capacity-Measured timer fullness status e above,
        )
      ])

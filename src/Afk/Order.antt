-- ===== src/Afk/Order.antt =====
-- The order in which gobds/afk.go takes the idle players.
use gobds.Base.{◌≡◌, Bool, true, List, [], ◌∷◌, keep, All, if_both, arith, Bool-cases, inl, inr}
use gobds.Base.Int.{ℤ, pos, ◌-ℤ◌, ◌≤ℤ◌, leb_ℤ, ltb_ℤ}
use gobds.Afk.{Candidate, insert_longest, sort_longest, kicks}

-- A candidate has been idle at most as long as each of some others.
abbrev pub NoLongerThan : List Candidate → Candidate → Type 0
NoLongerThan cs d = All (λ c. d.dur ≤ℤ c.dur) cs

module _ (P : Candidate → Type 0) where
  All-insert_longest :
      (c : Candidate) (cs : List Candidate) → P c → All P cs → All P (insert_longest c cs)
  unfolding insert_longest
  All-insert_longest c [] p ps = (p, tt)
  All-insert_longest c (d ∷ ds) p (q, qs) =
      if_both (All P) (leb_ℤ d.dur c.dur) (p, (q, qs)) (q, All-insert_longest c ds p qs)

  pub All-sort_longest : (cs : List Candidate) → All P cs → All P (sort_longest cs)
  unfolding sort_longest
  All-sort_longest [] h = tt
  All-sort_longest (c ∷ cs) (p, ps) =
      All-insert_longest c (sort_longest cs) p (All-sort_longest cs ps)

  All-of-insert_longest :
      (c : Candidate) (cs : List Candidate) → All P (insert_longest c cs) → P c × All P cs
  unfolding insert_longest
  All-of-insert_longest c [] (p, h) = (p, tt)
  All-of-insert_longest c (d ∷ ds) h = elim (Bool-cases (leb_ℤ d.dur c.dur)) [
    | inl shorter ↦ rw shorter at h
    | inr longer ↦
        let (q, rest) = rw longer at h in
        let (p, qs) = All-of-insert_longest c ds rest in (p, (q, qs))
  ]

  pub All-of-sort_longest : (cs : List Candidate) → All P (sort_longest cs) → All P cs
  unfolding sort_longest
  All-of-sort_longest [] h = tt
  All-of-sort_longest (c ∷ cs) h =
      let (p, ps) = All-of-insert_longest c (sort_longest cs) h in (p, All-of-sort_longest cs ps)

  pub All-keep :
      (p : Candidate → Bool) (cs : List Candidate)
      → ((c : Candidate) → p c ≡ true → P c)
      → All P (keep p cs)
  unfolding keep
  All-keep p [] h = tt
  All-keep p (c ∷ cs) h = elim (Bool-cases (p c)) [
    | inl yes_it ↦ rw yes_it (h c yes_it, All-keep p cs h)
    | inr not_it ↦ rw not_it (All-keep p cs h)
  ]

  pub All-kicks :
      (threshold remaining : ℤ) (cs : List Candidate)
      → All P cs
      → All P (kicks threshold remaining cs)
  unfolding kicks
  All-kicks threshold remaining [] h = tt
  All-kicks threshold remaining (c ∷ cs) (p, ps) =
      if_both (All P) (ltb_ℤ remaining threshold) tt
        (p, All-kicks threshold (remaining -ℤ pos 1) cs ps)

-- The longest duration first.
abbrev pub Descends : List Candidate → Type 0
Descends [] = Unit {0}
Descends (c ∷ cs) = All (λ d. d.dur ≤ℤ c.dur) cs × Descends cs

insert_longest-Descends :
    (c : Candidate) (cs : List Candidate) → Descends cs → Descends (insert_longest c cs)
unfolding insert_longest
insert_longest-Descends c [] h = (tt, tt)
insert_longest-Descends c (d ∷ ds) (low, h) = elim (Bool-cases (leb_ℤ d.dur c.dur)) [
  | inl shorter ↦ rw shorter ((ground arith, below c d ds (ground arith) low), (low, h))
  | inr longer ↦ rw longer (
    All-insert_longest (λ e. e.dur ≤ℤ d.dur) c ds (ground arith) low,
    insert_longest-Descends c ds h,
  )
]
  where
    below :
        (c d : Candidate) (ds : List Candidate)
        → d.dur ≤ℤ c.dur
        → All (λ e. e.dur ≤ℤ d.dur) ds
        → All (λ e. e.dur ≤ℤ c.dur) ds
    below c d [] h k = tt
    below c d (e ∷ es) h (k, ks) = (omega arith, below c d es h ks)

pub sort_longest-Descends : (cs : List Candidate) → Descends (sort_longest cs)
unfolding sort_longest
sort_longest-Descends [] = tt
sort_longest-Descends (c ∷ cs) =
    insert_longest-Descends c (sort_longest cs) (sort_longest-Descends cs)

-- ===== src/Session/Handlers/SubChunk/Editing.antt =====
-- What the loops over the columns change (session/handler_sub_chunk.go).
use gobds.Base.{
  ℕ, zero, suc, ◌+◌, ◌≤◌, ◌<◌, dec_le, ◌≡◌, ◌∙◌, subst, Bool, true, false, ◌&&◌, ◌⊎◌, inl, inr,
  Bool-cases, List, ◌==◌, nat_eq, leb, ltb, arith, if◌then◌else◌,
}
use gobds.Area.{ChunkPos}
use gobds.Claim.Model.{PlayerClaim}
use gobds.Policy.{ClaimActor}
use gobds.Session.Handlers.SubChunk.Packet.{Codec, SetsOne}
use gobds.Session.Handlers.SubChunk.Columns.{Edit, denies, deny_column, deny_row, deny_rows}

module _ (codec : Codec) (sets_one : SetsOne codec) (chunk : ChunkPos) (claims : List PlayerClaim)
    (deny_id : ℕ) (actor : ClaimActor) where
  abbrev E : Type 0
  E = Edit codec.Section

  abbrev denied : ℕ → ℕ → Bool
  denied = denies codec chunk claims deny_id actor

  -- The block at a place of the lowest layer of a section.
  abbrev at_floor : ℕ → ℕ → Bool
  at_floor y layer = y == 0 && layer == 0

  deny_column_block :
      (x0 z0 x y z layer : ℕ) (e : E)
      → codec.block_at x y z layer (deny_column codec chunk claims deny_id actor x0 z0 e).section
        ≡ (if (x == x0 && z == z0 && denied x0 z0) && at_floor y layer
            then deny_id
            else codec.block_at x y z layer e.section)
  unfolding deny_column
  deny_column_block x0 z0 x y z layer e =
      ground (arith, sets_one x0 0 z0 0 deny_id e.section x y z layer)

  deny_column_modified :
      (x0 z0 : ℕ) (e : E)
      → (deny_column codec chunk claims deny_id actor x0 z0 e).modified ≡ false
      → (e.modified ≡ false) × (denied x0 z0 ≡ false)
  unfolding deny_column
  deny_column_modified x0 z0 e h = ground arith

  -- x lies in the n places from x0 on.
  abbrev within : ℕ → ℕ → ℕ → Bool
  within x0 n x = leb x0 x && ltb x (x0 + n)

  deny_row_block :
      (z0 n x0 x y z layer : ℕ) (e : E)
      → codec.block_at x y z layer (deny_row codec chunk claims deny_id actor z0 n x0 e).section ≡ (
          if (within x0 n x && z == z0 && denied x z) && at_floor y layer
          then deny_id
          else codec.block_at x y z layer e.section)
  unfolding deny_row
  deny_row_block z0 zero x0 x y z layer e = ground arith
  deny_row_block z0 (suc n) x0 x y z layer e =
      deny_row_block z0 n (x0 + 1) x y z layer
        (deny_column codec chunk claims deny_id actor x0 z0 e)
      ∙ ground (arith, deny_column_block x0 z0 x y z layer e)

  deny_row_modified :
      (z0 n x0 : ℕ) (e : E)
      → (deny_row codec chunk claims deny_id actor z0 n x0 e).modified ≡ false
      → (e.modified ≡ false) × ((x : ℕ) → x0 ≤ x → x < x0 + n → denied x z0 ≡ false)
  unfolding deny_row
  deny_row_modified z0 zero x0 e h = (h, λ x low high. absurd (omega arith))
  deny_row_modified z0 (suc n) x0 e h =
      let (before, later) = deny_row_modified z0 n (x0 + 1) _ h in
      let (start, first) = deny_column_modified x0 z0 e before in
      (
        start,
        λ x low high. elim (dec_le (x0 + 1) x) [
          | yes p ↦ later x p (omega arith)
          | no p ↦ subst (λ v. denied v z0 ≡ false) (let s : x0 ≡ x = omega arith in s) first
        ],
      )

  deny_rows_block :
      (n z0 x y z layer : ℕ) (e : E)
      → codec.block_at x y z layer (deny_rows codec chunk claims deny_id actor n z0 e).section ≡ (
          if (within 0 16 x && within z0 n z && denied x z) && at_floor y layer
          then deny_id
          else codec.block_at x y z layer e.section)
  unfolding deny_rows
  deny_rows_block zero z0 x y z layer e = ground arith
  deny_rows_block (suc n) z0 x y z layer e =
      deny_rows_block n (z0 + 1) x y z layer (deny_row codec chunk claims deny_id actor z0 16 0 e)
      ∙ ground (arith, deny_row_block z0 16 0 x y z layer e)

  deny_rows_modified :
      (n z0 : ℕ) (e : E)
      → (deny_rows codec chunk claims deny_id actor n z0 e).modified ≡ false
      → (e.modified ≡ false) × ((x z : ℕ) → x < 16 → z0 ≤ z → z < z0 + n → denied x z ≡ false)
  unfolding deny_rows
  deny_rows_modified zero z0 e h = (h, λ x z hx low high. absurd (omega arith))
  deny_rows_modified (suc n) z0 e h =
      let (before, later) = deny_rows_modified n (z0 + 1) _ h in
      let (start, first) = deny_row_modified z0 16 0 e before in
      (
        start,
        λ x z hx low high. elim (dec_le (z0 + 1) z) [
          | yes p ↦ later x z hx p (omega arith)
          | no p ↦
              subst (λ v. denied x v ≡ false) (let s : z0 ≡ z = omega arith in s)
                (first x (omega arith) (omega arith))
        ],
      )

  deny_column_changed :
      (x0 z0 : ℕ) (e : E)
      → (deny_column codec chunk claims deny_id actor x0 z0 e).modified ≡ true
      → (e.modified ≡ true) ⊎ (denied x0 z0 ≡ true)
  unfolding deny_column
  deny_column_changed x0 z0 e h = elim (Bool-cases (denied x0 z0)) [
    | inl d ↦ inr d
    | inr d ↦ inl (ground arith)
  ]

  deny_row_changed :
      (z0 n x0 : ℕ) (e : E)
      → (deny_row codec chunk claims deny_id actor z0 n x0 e).modified ≡ true
      → (e.modified ≡ true) ⊎ ((x : ℕ) × (x < x0 + n) × (denied x z0 ≡ true))
  unfolding deny_row
  deny_row_changed z0 zero x0 e h = inl h
  deny_row_changed z0 (suc n) x0 e h = elim (deny_row_changed z0 n (x0 + 1) _ h) [
    | inr (x, high, d) ↦ inr (x, omega arith, d)
    | inl before ↦ elim (deny_column_changed x0 z0 e before) [
      | inl start ↦ inl start
      | inr d ↦ inr (x0, omega arith, d)
    ]
  ]

  deny_rows_changed :
      (n z0 : ℕ) (e : E)
      → (deny_rows codec chunk claims deny_id actor n z0 e).modified ≡ true
      → (e.modified ≡ true) ⊎ ((x : ℕ) × (z : ℕ) × (x < 16) × (z < z0 + n) × (denied x z ≡ true))
  unfolding deny_rows
  deny_rows_changed zero z0 e h = inl h
  deny_rows_changed (suc n) z0 e h = elim (deny_rows_changed n (z0 + 1) _ h) [
    | inr (x, z, hx, high, d) ↦ inr (x, z, hx, omega arith, d)
    | inl before ↦ elim (deny_row_changed z0 16 0 e before) [
      | inl start ↦ inl start
      | inr (x, high, d) ↦ inr (x, z0, omega arith, omega arith, d)
    ]
  ]

  -- The loops over all the columns set the lowest block of the denied ones to the deny block, and
  -- nothing else; `modified` tells whether there is one.
  pub deny_rows-sets :
      (e : E) (x y z layer : ℕ)
      → x < 16
      → z < 16
      → codec.block_at x y z layer (deny_rows codec chunk claims deny_id actor 16 0 e).section ≡ (
          if denied x z && (y == 0 && layer == 0)
          then deny_id
          else codec.block_at x y z layer e.section)
  deny_rows-sets e x y z layer hx hz = deny_rows_block 16 0 x y z layer e ∙ ground arith

  pub deny_rows-unmodified :
      (e : E)
      → (deny_rows codec chunk claims deny_id actor 16 0 e).modified ≡ false
      → (x z : ℕ) → x < 16
      → z < 16
      → denied x z ≡ false
  deny_rows-unmodified e h x z hx hz =
      (deny_rows_modified 16 0 e h).1 x z hx (omega arith) (omega arith)

  -- From an edit that is not modified yet, it becomes so only by a column that is denied.
  pub deny_rows-modified :
      (e : E)
      → e.modified ≡ false
      → (deny_rows codec chunk claims deny_id actor 16 0 e).modified ≡ true
      → (x : ℕ) × (z : ℕ) × (x < 16) × (z < 16) × (denied x z ≡ true)
  deny_rows-modified e fresh h = elim (deny_rows_changed 16 0 e h) [
    | inl start ↦ absurd (cc)
    | inr (x, z, hx, hz, d) ↦ (x, z, hx, omega arith, d)
  ]

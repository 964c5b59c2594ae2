-- ===== src/Claim/Snapshot/Contents.antt =====
-- What the cells of claim/snapshot.go hold after a claim has been entered: the claim once more in
-- each cell of its rectangle, and in no other.
use mathlib.Core.List.{append-nil}
use gobds.Base.{
  ℕ, zero, suc, ◌≡◌, Bool, true, false, ◌&&◌, List, [], ◌∷◌, ◌++◌, ◌==◌, ◌⊎◌, if◌then◌else◌, arith,
}
use gobds.Base.Int.{ℤ, pos, ◌+ℤ◌, leb_ℤ, ltb_ℤ, int_eq, +ℤ_parts, eq_of_parts}
use gobds.Base.Dict.{lookup-insert}
use gobds.Claim.Model.{PlayerClaim}
use gobds.Claim.Snapshot.Cells.{
  CellKey, Grid, cell_eq, cell_at, add_cell, add_column, add_rectangle,
}

abbrev pub one_if {ℓ} : {A : Type ℓ} → Bool → A → List A
one_if b a = if b then a ∷ [] else []

-- low <= v && v < low + n
abbrev pub reaches : ℤ → ℕ → ℤ → Bool
reaches low n v = leb_ℤ low v && ltb_ℤ v (low +ℤ pos n)

key_eq : (k : CellKey) (x z : ℤ) → (k == record { x = x; z = z }) ≡ (k.x == x && k.z == z)
key_eq k x z = ground arith

reaches-zero : (low v : ℤ) → reaches low zero v ≡ false
reaches-zero low v = ground (arith, +ℤ_parts low (pos 0))

-- The first of the values, or one of those that follow.
reaches-suc :
    (low v : ℤ) (n : ℕ)
    → ((v == low) ≡ true) × (reaches low (suc n) v ≡ true) × (reaches (low +ℤ pos 1) n v ≡ false)
      ⊎ ((v == low) ≡ false) × (reaches low (suc n) v ≡ reaches (low +ℤ pos 1) n v)
reaches-suc low v n = ground (
  arith,
  +ℤ_parts low (pos 1),
  +ℤ_parts low (pos (suc n)),
  +ℤ_parts (low +ℤ pos 1) (pos n),
  eq_of_parts v low,
)

-- A list that is extended by an item at most once in two steps.
append-one_if_steps :
    {p q r : Bool} (b : Bool) (xs : List PlayerClaim) (c : PlayerClaim)
    → (p ≡ true) × (r ≡ true) × (q ≡ false) ⊎ (p ≡ false) × (r ≡ q)
    → (xs ++ one_if (p && b) c) ++ one_if (q && b) c ≡ xs ++ one_if (r && b) c
append-one_if_steps b xs c h = ground (arith, append-nil xs, append-nil (xs ++ c ∷ []))

append-one_if_steps_under :
    {p q r : Bool} (a : Bool) (xs : List PlayerClaim) (c : PlayerClaim)
    → (p ≡ true) × (r ≡ true) × (q ≡ false) ⊎ (p ≡ false) × (r ≡ q)
    → (xs ++ one_if (a && p) c) ++ one_if (a && q) c ≡ xs ++ one_if (a && r) c
append-one_if_steps_under a xs c h = ground (arith, append-nil xs, append-nil (xs ++ c ∷ []))

cell_at-add_cell :
    (k key : CellKey) (c : PlayerClaim) (g : Grid)
    → cell_at k (add_cell c key g).cells ≡ cell_at k g.cells ++ one_if (k == key) c
unfolding add_cell
cell_at-add_cell k key c g = ground (
  arith,
  lookup-insert k key (cell_at key g.cells ++ c ∷ []) g.cells,
  append-nil (cell_at k g.cells),
)

cell_at-add_column :
    (k : CellKey) (c : PlayerClaim) (x z : ℤ) (n : ℕ) (g : Grid)
    → cell_at k (add_column c x z n g).cells
      ≡ cell_at k g.cells ++ one_if (k.x == x && reaches z n k.z) c
unfolding add_column
cell_at-add_column k c x z zero g =
    rw (reaches-zero z k.z) (ground (arith, append-nil (cell_at k g.cells)))
cell_at-add_column k c x z (suc n) g =
    rw
      (
        cell_at-add_column k c x (z +ℤ pos 1) n (add_cell c (record { x = x; z = z }) g),
        cell_at-add_cell k (record { x = x; z = z }) c g,
        key_eq k x z,
      )
      (append-one_if_steps_under (k.x == x) (cell_at k g.cells) c (reaches-suc z k.z n))

pub cell_at-add_rectangle :
    (k : CellKey) (c : PlayerClaim) (x : ℤ) (width : ℕ) (z : ℤ) (depth : ℕ) (g : Grid)
    → cell_at k (add_rectangle c x width z depth g).cells
      ≡ cell_at k g.cells ++ one_if (reaches x width k.x && reaches z depth k.z) c
unfolding add_rectangle
cell_at-add_rectangle k c x zero z depth g =
    rw (reaches-zero x k.x) (ground (arith, append-nil (cell_at k g.cells)))
cell_at-add_rectangle k c x (suc n) z depth g =
    rw
      (
        cell_at-add_rectangle k c (x +ℤ pos 1) n z depth (add_column c x z depth g),
        cell_at-add_column k c x z depth g,
      )
      (append-one_if_steps (reaches z depth k.z) (cell_at k g.cells) c (reaches-suc x k.x n))

-- ===== src/Claim/Snapshot/Candidates.antt =====
-- The spatial index of claim/snapshot.go against a search through all its claims.
use mathlib.Core.List.{append-nil, append_assoc}
use gobds.Base.{
  ℕ, ◌≡◌, sym, ap, ◌∙◌, String, Bool, true, ◌&&◌, some, List, [], ◌∷◌, ◌++◌, ◌==◌, string_eq, keep,
  keep-append, Option-cases, inl, inr, arith,
}
use gobds.Base.Int.{ℤ, pos_part}
use gobds.Base.Dict.{Dict, lookup, insert, lookup-insert}
use gobds.Base.Result.{ok, >>=-eq-ok, ok-injective}
use gobds.Float.{Float}
use gobds.Clock.{Time}
use gobds.Geometry.{claim_contains}
use gobds.Claim.Model.{PlayerClaim}
use gobds.Claim.Snapshot.Cells.{CellKey, Grid, cell_at, cell_for, claim_cells, span, add_claim}
use gobds.Claim.Snapshot.Index.{SpatialIndex, index_claim, index_claims, entered, dimension_cells}
use gobds.Claim.Snapshot.Build.{Snapshot, build_snapshot, candidates, collect_claims, no_cells}
use gobds.Claim.Snapshot.Contents.{one_if, reaches, cell_at-add_rectangle}
use gobds.Claim.Snapshot.Coordinates.{reaches-cell_for}

-- What a successful `add_claim` has computed.
add_claim-eq-ok :
    (wild : Float → ℤ) (c : PlayerClaim) (g g' : Grid) (k : CellKey)
    → add_claim wild c g ≡ ok g'
    → (low : CellKey) × (high : CellKey) × (claim_cells wild c ≡ some (low, high))
      × (cell_at k g'.cells
          ≡ cell_at k g.cells
            ++ one_if
                (reaches low.x (pos_part (span low.x high.x)) k.x
                  && reaches low.z (pos_part (span low.z high.z)) k.z)
                c)
unfolding add_claim
add_claim-eq-ok wild c g g' k h = elim (Option-cases (claim_cells wild c)) [
  | inl e ↦ absurd (ground arith)
  | inr ((low, high), e) ↦ (
    low,
    high,
    e,
    ground (
      arith,
      cell_at-add_rectangle k c low.x (pos_part (span low.x high.x)) low.z
          (pos_part (span low.z high.z)) g,
    ),
  )
]

keep-one_if :
    (p : PlayerClaim → Bool) (b : Bool) (xs : List PlayerClaim) (c : PlayerClaim)
    → keep p (xs ++ one_if b c) ≡ keep p xs ++ one_if (b && p c) c
unfolding keep
keep-one_if p b xs c = rw (keep-append p xs (one_if b c)) (ground arith)

extend-entered :
    (dimension own : String) (k : CellKey) (b : Bool) (c : PlayerClaim) (g : Grid)
    (ix : SpatialIndex)
    → cell_at k g.cells ≡ cell_at k (dimension_cells own ix.cells) ++ one_if b c
    → entered dimension k (record { cells = insert own g.cells ix.cells; cell_count = g.count })
      ≡ entered dimension k ix ++ one_if (own == dimension && b) c
extend-entered dimension own k b c g ix h =
    ground
      (arith, lookup-insert dimension own g.cells ix.cells, append-nil (entered dimension k ix))

one_if_absorb :
    (a b p : Bool) (c : PlayerClaim)
    → (p ≡ true → b ≡ true)
    → one_if ((a && b) && p) c ≡ one_if (a && p) c
one_if_absorb a b p c h = ground arith

-- The claim comes last in the cells of its own dimension that it reaches.
entered-index_claim :
    (wild : Float → ℤ) (dimension : String) (k : CellKey) (c : PlayerClaim) (ix ix' : SpatialIndex)
    → index_claim wild c ix ≡ ok ix'
    → (low : CellKey) × (high : CellKey) × (claim_cells wild c ≡ some (low, high))
      × (entered dimension k ix'
          ≡ entered dimension k ix
            ++ one_if
                (c.location.dimension == dimension
                  && (reaches low.x (pos_part (span low.x high.x)) k.x
                      && reaches low.z (pos_part (span low.z high.z)) k.z))
                c)
unfolding index_claim
entered-index_claim wild dimension k c ix ix' h =
    let (g, e, f) = >>=-eq-ok (add_claim wild c _) _ h in
    let (low, high, cells, at) = add_claim-eq-ok wild c _ g k e in
    (
      low,
      high,
      cells,
      rw (← ok-injective f) (extend-entered dimension c.location.dimension k _ c g ix at),
    )

module _ (wild : Float → ℤ) (dimension : String) (x z : Float) where
  abbrev inside : PlayerClaim → Bool
  inside c = claim_contains c x z

  -- The claims of a dimension that contain a position, found by a search.
  abbrev pub inside_in : PlayerClaim → Bool
  inside_in c = c.location.dimension == dimension && claim_contains c x z

  abbrev found : SpatialIndex → List PlayerClaim
  found ix = keep inside (entered dimension (cell_for wild x z) ix)

  found-index_claim :
      (c : PlayerClaim) (ix ix' : SpatialIndex)
      → index_claim wild c ix ≡ ok ix'
      → found ix' ≡ found ix ++ keep inside_in (c ∷ [])
  unfolding index_claim keep
  found-index_claim c ix ix' h =
      let (low, high, cells, e) =
        entered-index_claim wild dimension (cell_for wild x z) c ix ix' h in
      rw (e, keep-one_if)
        (ap (λ l. found ix ++ l)
          (one_if_absorb (c.location.dimension == dimension) _ (claim_contains c x z) c
            (reaches-cell_for wild c x z low high cells)))

  found-index_claims :
      (cs : List PlayerClaim) (ix ix' : SpatialIndex)
      → index_claims wild cs ix ≡ ok ix'
      → found ix' ≡ found ix ++ keep inside_in cs
  unfolding index_claims keep
  found-index_claims [] ix ix' h = rw (← ok-injective h) (sym (append-nil (found ix)))
  found-index_claims (c ∷ cs) ix ix' h =
      let (next, e, f) = >>=-eq-ok (index_claim wild c ix) _ h in
      rw (found-index_claims cs next ix' f, found-index_claim c ix next e)
        (append_assoc (found ix) _ _
          ∙ ap (λ l. found ix ++ l) (sym (keep-append inside_in (c ∷ []) cs)))

  -- The claims that candidates offers for a position and that contain it are those that a search
  -- through all the claims of the snapshot finds, in the same order, whatever int32 makes of a
  -- coordinate that it cannot hold.
  pub keep-candidates :
      (claims : Dict String PlayerClaim) (generation : ℕ) (now : Time) (s : Snapshot)
      → build_snapshot wild claims generation now ≡ ok s
      → keep inside (candidates wild (some s) dimension x z) ≡ keep inside_in s.claims
  unfolding build_snapshot candidates keep lookup
  keep-candidates claims generation now s h =
      let (collected, e, f) = >>=-eq-ok (collect_claims claims []) _ h in
      let (index, e', f') = >>=-eq-ok (index_claims wild collected no_cells) _ f in
      rw (← ok-injective f') (found-index_claims collected no_cells index e')

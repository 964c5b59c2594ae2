-- ===== src/Entity/Index.antt =====
-- The two maps of entity/factory.go stay inverse to one another.
use gobds.Base.{
  ℕ, ◌≡◌, refl, sym, Option, none, some, ◌==◌, nat_eq, if◌then◌else◌, arith, Option-cases, ◌⊎◌, inl,
  inr,
}
use gobds.Base.Int.{ℤ, ℤ-discrete, int_eq}
use gobds.Base.Dict.{Dict, lookup, lookup-insert, lookup-erase}
use gobds.Entity.{Entity, Factory, new_factory, forget_unique, forget_runtime, add}

pub record IsConsistent (f : Factory) : Type 0 where
  -- An entity is kept under its own runtime id, which its unique id leads to.
  pub forth :
      (r : ℕ) (e : Entity)
      → lookup r f.entities ≡ some e
      → (e.runtime_id ≡ r) × (lookup e.unique_id f.runtime_id_by_unique_id ≡ some r)
  -- A unique id leads to the entity that has it.
  pub back :
      (u : ℤ) (r : ℕ)
      → lookup u f.runtime_id_by_unique_id ≡ some r
      → (e : Entity) × (lookup r f.entities ≡ some e) × (e.unique_id ≡ u)

pub new_factory-IsConsistent : IsConsistent new_factory
unfolding new_factory lookup
new_factory-IsConsistent = record { forth = λ r e h. absurd (cc); back = λ u r h. absurd (cc) }

-- What the maps hold once the two old entries are gone.
module _ (e : Entity) (f : Factory) where
  abbrev by_unique : Dict ℤ ℕ
  by_unique = forget_unique (lookup e.runtime_id f.entities) f.runtime_id_by_unique_id

  abbrev kept : Dict ℕ Entity
  kept = forget_runtime (lookup e.unique_id by_unique) f.entities

pub lookup-forget_unique :
    (u : ℤ) (o : Option Entity) (m : Dict ℤ ℕ)
    → lookup u (forget_unique o m)
      ≡ elim o [ none ↦ lookup u m | some p ↦ if u == p.unique_id then none else lookup u m ]
lookup-forget_unique u none m = refl
lookup-forget_unique u (some p) m = lookup-erase u p.unique_id m

lookup-forget_runtime :
    (r : ℕ) (o : Option ℕ) (m : Dict ℕ Entity)
    → lookup r (forget_runtime o m)
      ≡ elim o [ none ↦ lookup r m | some p ↦ if r == p then none else lookup r m ]
lookup-forget_runtime r none m = refl
lookup-forget_runtime r (some p) m = lookup-erase r p m

module _ (e : Entity) (f : Factory) (v : IsConsistent f) where
  add-forth :
      (r : ℕ) (e' : Entity)
      → lookup r (add e f).entities ≡ some e'
      → (e'.runtime_id ≡ r) × (lookup e'.unique_id (add e f).runtime_id_by_unique_id ≡ some r)
  unfolding add
  add-forth r e' h = ground (
    arith,
    lookup-insert r e.runtime_id e (kept e f),
    lookup-insert e'.unique_id e.unique_id e.runtime_id (by_unique e f),
    lookup-forget_runtime r (lookup e.unique_id (by_unique e f)) f.entities,
    lookup-forget_unique e'.unique_id (lookup e.runtime_id f.entities) f.runtime_id_by_unique_id,
    lookup-forget_unique e.unique_id (lookup e.runtime_id f.entities) f.runtime_id_by_unique_id,
    v.forth r e',
    previous,
  )
    where
      previous :
          (lookup e.runtime_id f.entities ≡ none)
          ⊎ ((p : Entity) × (lookup e.runtime_id f.entities ≡ some p)
              × (lookup p.unique_id f.runtime_id_by_unique_id ≡ some e.runtime_id))
      previous = elim (Option-cases (lookup e.runtime_id f.entities)) [
        | inl h ↦ inl h
        | inr (p, h) ↦ inr (p, h, (v.forth e.runtime_id p h).1)
      ]

  -- The entity that had the new unique id before, if its runtime id is r.
  replaced :
      (r : ℕ)
      → lookup e.unique_id (by_unique e f) ≡ some r
      → (p : Entity) × (lookup r f.entities ≡ some p) × (p.unique_id ≡ e.unique_id)
  replaced r h = v.back e.unique_id r (
      ground (
        arith,
        lookup-forget_unique e.unique_id (lookup e.runtime_id f.entities) f.runtime_id_by_unique_id,
      ))

  add-back :
      (u : ℤ) (r : ℕ)
      → lookup u (add e f).runtime_id_by_unique_id ≡ some r
      → (e' : Entity) × (lookup r (add e f).entities ≡ some e') × (e'.unique_id ≡ u)
  unfolding add
  add-back u r h = elim (ℤ-discrete u e.unique_id) [
    | yes same ↦ (
      e,
      ground (
        arith,
        lookup-insert u e.unique_id e.runtime_id (by_unique e f),
        lookup-insert r e.runtime_id e (kept e f),
      ),
      sym same,
    )
    | no other ↦
        let old : lookup u f.runtime_id_by_unique_id ≡ some r = ground (
          arith,
          lookup-insert u e.unique_id e.runtime_id (by_unique e f),
          lookup-forget_unique u (lookup e.runtime_id f.entities) f.runtime_id_by_unique_id,
        ) in
        let (e', at, is) = v.back u r old in
        (
          e',
          ground (
            arith,
            lookup-insert u e.unique_id e.runtime_id (by_unique e f),
            lookup-forget_unique u (lookup e.runtime_id f.entities) f.runtime_id_by_unique_id,
            lookup-insert r e.runtime_id e (kept e f),
            lookup-forget_runtime r (lookup e.unique_id (by_unique e f)) f.entities,
            replaced r,
          ),
          is,
        )
  ]

  pub add-IsConsistent : IsConsistent (add e f)
  add-IsConsistent = record { forth = add-forth; back = add-back }

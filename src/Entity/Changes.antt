-- ===== src/Entity/Changes.antt =====
-- The methods of entity/factory.go keep its two maps inverse to one another.
use gobds.Base.{
  ℕ, ◌≡◌, refl, Bool, none, some, List, [], ◌∷◌, ◌==◌, ℕ_discrete, nat_eq, if◌then◌else◌, arith,
  Option-cases, ◌⊎◌, inl, inr,
}
use gobds.Base.Int.{ℤ, int_eq}
use gobds.Base.Dict.{lookup, insert, erase, lookup-insert, lookup-erase}
use gobds.Claim.Model.{Vector3}
use gobds.Entity.{
  Entity, Factory, new_factory, add, remove_from_runtime_id, remove_from_unique_id, update_position,
  by_runtime_id,
}
use gobds.Entity.Index.{
  IsConsistent, new_factory-IsConsistent, lookup-forget_unique, add-IsConsistent,
}

module _ (f : Factory) (v : IsConsistent f) where
  remove_from_runtime_id-IsConsistent : (id : ℕ) → IsConsistent (remove_from_runtime_id id f)
  unfolding remove_from_runtime_id
  remove_from_runtime_id-IsConsistent id = record {
    forth = λ r e h. ground (
      arith,
      lookup-erase r id f.entities,
      lookup-forget_unique e.unique_id (lookup id f.entities) f.runtime_id_by_unique_id,
      v.forth r e,
      owner id,
    );
    back = λ u r h.
        let old : lookup u f.runtime_id_by_unique_id ≡ some r =
          ground (arith, lookup-forget_unique u (lookup id f.entities) f.runtime_id_by_unique_id) in
        let (e, at, is) = v.back u r old in
        (
          e,
          ground (
            arith,
            lookup-erase r id f.entities,
            lookup-forget_unique u (lookup id f.entities) f.runtime_id_by_unique_id,
          ),
          is,
        );
  }
    where
      owner :
          (id : ℕ)
          → (lookup id f.entities ≡ none)
            ⊎ ((p : Entity) × (lookup id f.entities ≡ some p)
                × (lookup p.unique_id f.runtime_id_by_unique_id ≡ some id))
      owner id = elim (Option-cases (lookup id f.entities)) [
        | inl h ↦ inl h
        | inr (p, h) ↦ inr (p, h, (v.forth id p h).1)
      ]

  erase_both-IsConsistent :
      (u : ℤ) (r : ℕ)
      → lookup u f.runtime_id_by_unique_id ≡ some r
      → IsConsistent (record {
        entities = erase r f.entities;
        runtime_id_by_unique_id = erase u f.runtime_id_by_unique_id;
      })
  erase_both-IsConsistent u r found = record {
    forth = λ r' e h. ground (
      arith,
      lookup-erase r' r f.entities,
      lookup-erase e.unique_id u f.runtime_id_by_unique_id,
      v.forth r' e,
    );
    back = λ u' r' h.
        let old : lookup u' f.runtime_id_by_unique_id ≡ some r' =
          ground (arith, lookup-erase u' u f.runtime_id_by_unique_id) in
        let (e, at, is) = v.back u' r' old in
        let (p, at_p, is_p) = v.back u r found in
        (
          e,
          ground (arith, lookup-erase r' r f.entities, lookup-erase u' u f.runtime_id_by_unique_id),
          is,
        );
  }

  remove_from_unique_id-IsConsistent : (id : ℤ) → IsConsistent (remove_from_unique_id id f)
  unfolding remove_from_unique_id
  remove_from_unique_id-IsConsistent id =
      elim (Option-cases (lookup id f.runtime_id_by_unique_id)) [
        | inl e ↦ rw (e, remove_from_unique_id) v
        | inr (r, e) ↦ rw (e, remove_from_unique_id) (erase_both-IsConsistent id r e)
      ]

  -- An entity that is replaced by one with the same two ids.
  insert-IsConsistent :
      (r : ℕ) (old new : Entity)
      → lookup r f.entities ≡ some old
      → new.unique_id ≡ old.unique_id
      → new.runtime_id ≡ old.runtime_id
      → IsConsistent (record f { entities = insert r new f.entities })
  insert-IsConsistent r old new at same_u same_r = record {
    forth =
        λ r' e h. ground (arith, lookup-insert r' r new f.entities, v.forth r' e, v.forth r old);
    back = λ u' r' h.
        let (e, at', is) = v.back u' r' h in
        elim (ℕ_discrete r' r) [
          | yes same ↦ (new, ground (arith, lookup-insert r' r new f.entities), ground arith)
          | no other ↦ (e, ground (arith, lookup-insert r' r new f.entities), is)
        ];
  }

  update_position-IsConsistent :
      (id : ℕ) (p : Vector3) (x y z : Bool) → IsConsistent (update_position id p x y z f)
  unfolding update_position
  update_position-IsConsistent id p x y z = elim (Option-cases (lookup id f.entities)) [
    | inl e ↦ rw (e, update_position) v
    | inr (old, e) ↦ rw (e, update_position) (insert-IsConsistent id old _ e refl refl)
  ]

-- What the handlers of a session do with its factory.
pub data Change : Type 0 where
  adds : Entity → Change
  removes_runtime : ℕ → Change
  removes_unique : ℤ → Change
  moves : ℕ → Vector3 → Bool → Bool → Bool → Change

unfoldable pub change : Change → Factory → Factory
change (adds e) f = add e f
change (removes_runtime id) f = remove_from_runtime_id id f
change (removes_unique id) f = remove_from_unique_id id f
change (moves id p x y z) f = update_position id p x y z f

unfoldable pub changes : List Change → Factory → Factory
changes [] f = f
changes (c ∷ cs) f = changes cs (change c f)

change-IsConsistent : (c : Change) (f : Factory) → IsConsistent f → IsConsistent (change c f)
unfolding change
change-IsConsistent (adds e) f v = add-IsConsistent e f v
change-IsConsistent (removes_runtime id) f v = remove_from_runtime_id-IsConsistent f v id
change-IsConsistent (removes_unique id) f v = remove_from_unique_id-IsConsistent f v id
change-IsConsistent (moves id p x y z) f v = update_position-IsConsistent f v id p x y z

changes-keep : (cs : List Change) (f : Factory) → IsConsistent f → IsConsistent (changes cs f)
unfolding changes
changes-keep [] f v = v
changes-keep (c ∷ cs) f v = changes-keep cs (change c f) (change-IsConsistent c f v)

-- After any additions, removals and movements the two maps of a factory are inverse: an entity is
-- kept under its runtime id, its unique id leads there, and a unique id leads to its own entity.
pub changes-IsConsistent : (cs : List Change) → IsConsistent (changes cs new_factory)
changes-IsConsistent cs = changes-keep cs new_factory new_factory-IsConsistent

-- Removing a unique id from such a factory removes the entity that has it and no other.
pub by_runtime_id-remove_from_unique_id :
    (f : Factory) (u : ℤ) (r : ℕ) (e : Entity)
    → IsConsistent f
    → by_runtime_id r f ≡ some e
    → by_runtime_id r (remove_from_unique_id u f) ≡ (if e.unique_id == u then none else some e)
unfolding by_runtime_id remove_from_unique_id
by_runtime_id-remove_from_unique_id f u r e v h =
    elim (Option-cases (lookup u f.runtime_id_by_unique_id)) [
      | inl none_there ↦ rw (none_there, remove_from_unique_id) (ground (arith, v.forth r e))
      | inr (r', there) ↦
          let (p, at, is) = v.back u r' there in
          rw (there, remove_from_unique_id)
            (ground (arith, lookup-erase r r' f.entities, v.forth r e))
    ]

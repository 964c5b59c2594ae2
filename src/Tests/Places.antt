-- ===== src/Tests/Places.antt =====
-- Tests of the border, the entities and the copies of features (util/area, entity, claim/snapshot.go).
use gobds.Base.{
  ℕ, ◌≡◌, refl, ◌↔◌, ◌≤◌, String, Bool, true, false, ◌||◌, Option, none, some, List, [], ◌∷◌, ◌==◌,
  if◌then◌else◌, arith, ℕ_discrete,
}
use gobds.Base.Int.{ℤ, ℤ-discrete, pos, int_eq}
use gobds.Claim.Model.{Feature, feature_type_mineable}
use gobds.Claim.Snapshot.Validate.{clone_feature}
use gobds.Policy.{feature_allows_type}
use gobds.Policy.Cloning.{is_empty_list, ids_for, feature_allows_type-clone_feature}
use gobds.Area.{Area2D, ChunkPos, position_inside, chunk_inside, chunk_of}
use gobds.Area.Chunks.{Shares, chunk_inside_iff, chunk_inside-chunk_of}
use gobds.Entity.{Entity, new_factory, by_runtime_id, remove_from_unique_id}
use gobds.Entity.Index.{IsConsistent}
use gobds.Entity.Changes.{
  Change, adds, removes_unique, changes, changes-IsConsistent, by_runtime_id-remove_from_unique_id,
}
use gobds.Tests.{spot}

abbrev border : Area2D
border = record { min_x = pos 0; min_z = pos 0; max_x = pos 100; max_z = pos 100 }

abbrev chunk : ChunkPos
chunk = record { x = pos 6; z = pos 2 }

chunk_inside-chunk_of_example : chunk_inside border (chunk_of (pos 99) (pos 40)) ≡ true
unfolding position_inside
chunk_inside-chunk_of_example =
    chunk_inside-chunk_of border (pos 99) (pos 40) (omega arith, omega arith)
      (omega arith, omega arith) refl

chunk_inside_iff_example :
    (chunk_inside border chunk ≡ true) ↔ ((x : ℤ) × (z : ℤ) × Shares border chunk x z)
chunk_inside_iff_example =
    chunk_inside_iff border chunk (omega arith, omega arith) (omega arith, omega arith)
      (omega arith) (omega arith)

abbrev armor_stand : Entity
armor_stand = record {
  unique_id = pos 70;
  runtime_id = 7;
  actor_type = "minecraft:armor_stand";
  position = spot 3 4;
}

abbrev painting : Entity
painting = record {
  unique_id = pos 80;
  runtime_id = 8;
  actor_type = "minecraft:painting";
  position = spot 5 6;
}

abbrev history : List Change
history = adds armor_stand ∷ removes_unique (pos 70) ∷ adds armor_stand ∷ adds painting ∷ []

changes-IsConsistent_example : IsConsistent (changes history new_factory)
changes-IsConsistent_example = changes-IsConsistent history

by_runtime_id-remove_from_unique_id_example :
    by_runtime_id 8 (remove_from_unique_id (pos 70) (changes history new_factory))
    ≡ (if painting.unique_id == pos 70 then none else some painting)
unfolding changes by_runtime_id gobds.Base.Dict.lookup gobds.Entity.Changes.change gobds.Entity.add
    gobds.Base.Dict.insert remove_from_unique_id new_factory ℕ_discrete ℤ-discrete
    gobds.Base.Dict.erase
by_runtime_id-remove_from_unique_id_example =
    by_runtime_id-remove_from_unique_id (changes history new_factory) (pos 70) 8 painting
      (changes-IsConsistent history) refl

-- A feature whose list of blocks is present and empty.
abbrev no_blocks : Feature
no_blocks = record {
  type = feature_type_mineable;
  from_location = none;
  to_location = none;
  block_type_ids = some [];
  entity_type_ids = none;
  item_type_ids = none;
}

feature_allows_type-clone_feature_example :
    feature_allows_type (clone_feature no_blocks) feature_type_mineable "minecraft:dirt"
    ≡ feature_allows_type no_blocks feature_type_mineable "minecraft:dirt"
      || is_empty_list (ids_for no_blocks feature_type_mineable)
feature_allows_type-clone_feature_example =
    feature_allows_type-clone_feature no_blocks feature_type_mineable "minecraft:dirt"

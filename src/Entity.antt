-- ===== src/Entity.antt =====
-- entity/entity.go and entity/factory.go: the entities of one session, found by the runtime id or
-- the unique id that the backend gave them. The lock makes each method one step.
pub mod Index
pub mod Changes
use gobds.Base.{
  ℕ, ◌≡◌, String, Bool, true, false, Option, none, some, List, map, nat_eq, [], if◌then◌else◌,
}
use gobds.Base.Int.{ℤ, int_eq}
use gobds.Base.Dict.{Dict, lookup, insert, erase}
use gobds.Claim.Model.{Vector3}

pub record Entity : Type 0 where
  pub unique_id : ℤ
  pub runtime_id : ℕ
  pub actor_type : String
  pub position : Vector3

pub record Factory : Type 0 where
  pub entities : Dict ℕ Entity
  pub runtime_id_by_unique_id : Dict ℤ ℕ

unfoldable pub new_factory : Factory
new_factory = record { entities = []; runtime_id_by_unique_id = [] }

-- The unique id of the entity that had the runtime id before is forgotten.
abbrev forget_unique : Option Entity → Dict ℤ ℕ → Dict ℤ ℕ
forget_unique none m = m
forget_unique (some previous) m = erase previous.unique_id m

-- The runtime id that the unique id had before is forgotten.
abbrev forget_runtime : Option ℕ → Dict ℕ Entity → Dict ℕ Entity
forget_runtime none m = m
forget_runtime (some previous) m = erase previous m

unfoldable pub add : Entity → Factory → Factory
add e f =
    let by_unique = forget_unique (lookup e.runtime_id f.entities) f.runtime_id_by_unique_id in
    let entities = forget_runtime (lookup e.unique_id by_unique) f.entities in
    record {
      entities = insert e.runtime_id e entities;
      runtime_id_by_unique_id = insert e.unique_id e.runtime_id by_unique;
    }

unfoldable pub remove_from_runtime_id : ℕ → Factory → Factory
remove_from_runtime_id id f = record {
  entities = erase id f.entities;
  runtime_id_by_unique_id = forget_unique (lookup id f.entities) f.runtime_id_by_unique_id;
}

unfoldable pub remove_from_unique_id : ℤ → Factory → Factory
remove_from_unique_id id f = elim (lookup id f.runtime_id_by_unique_id) [
  | none ↦ f
  | some runtime_id ↦ record {
    entities = erase runtime_id f.entities;
    runtime_id_by_unique_id = erase id f.runtime_id_by_unique_id;
  }
]

abbrev moved : Vector3 → Bool → Bool → Bool → Entity → Entity
moved position update_x update_y update_z e =
    let old = e.position in
    record e {
      position = record {
        x = if update_x then position.x else old.x;
        y = if update_y then position.y else old.y;
        z = if update_z then position.z else old.z;
      };
    }

unfoldable pub update_position : ℕ → Vector3 → Bool → Bool → Bool → Factory → Factory
update_position id position update_x update_y update_z f = elim (lookup id f.entities) [
  | none ↦ f
  | some e ↦ record f {
    entities = insert id (moved position update_x update_y update_z e) f.entities;
  }
]

unfoldable pub by_runtime_id : ℕ → Factory → Option Entity
by_runtime_id id f = lookup id f.entities

-- The values in an order that Go leaves open; here that of the entries.
unfoldable pub all : Factory → List Entity
all f = map (λ p. p.1) f.entities

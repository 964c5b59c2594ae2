-- ===== src/Session/Handlers/Actors.antt =====
-- The handlers of the entities that the server tells of: session/handler_add_actor.go,
-- handler_add_painting.go, handler_remove_actor.go, handler_move_actor.go and
-- handler_set_actor_data.go.
pub mod Naming
use gobds.Base.{
  ℕ, String, Bool, true, false, not, Option, none, some, List, [], ◌∷◌, ◌==◌, string_eq,
  if◌then◌else◌,
}
use gobds.Base.Int.{ℤ, pos}
use gobds.Base.Dict.{lookup}
use gobds.Float.{Float, whole}
use gobds.Claim.Model.{Vector3}
use gobds.Entity
use gobds.Entity.{Entity}
use gobds.Strings.{has_prefix}
use gobds.Translations.{MappedTranslations}
use gobds.Session.State.{Session}
use gobds.Session.Handlers.Handling.{Handled, forwarded, panicked}
use gobds.Session.Handlers.Actors.Naming.{translate_name}

-- EntityMetadata under the key of the name: a text, or a value of another type.
pub data Metadata : Type 0 where
  text : String → Metadata
  no_text : Metadata

-- packet.AddActor
pub record AddActor : Type 0 where
  pub unique_id : ℤ
  pub runtime_id : ℕ
  pub entity_type : String
  pub position : Vector3
  pub name : Option Metadata

abbrev pub with_entities : (Entity.Factory → Entity.Factory) → Session → Session
with_entities f s = record s { entities = f s.entities }

-- The end of both handlers that name an entity: the type assertion on a value that is no text panics.
unfoldable pub rename :
    MappedTranslations → Session → String → Option Metadata → Option Metadata × Handled
rename translations s entity_type none = (none, forwarded)
rename translations s entity_type (some no_text) =
    if has_prefix entity_type "pokemon:"
    then (some no_text, panicked)
    else (some no_text, forwarded)
rename translations s entity_type (some (text name)) =
    if has_prefix entity_type "pokemon:"
    then (some (text (translate_name translations s.locale name entity_type)), forwarded)
    else (some (text name), forwarded)

-- AddActorHandler.Handle
unfoldable pub handle_add_actor :
    MappedTranslations → Bool → AddActor → Session → Session × AddActor × Handled
handle_add_actor translations from_server packet s =
    let added =
      with_entities
        (Entity.add (record {
          unique_id = packet.unique_id;
          runtime_id = packet.runtime_id;
          actor_type = packet.entity_type;
          position = packet.position;
        }))
        s in
    let (name, handled) = rename translations s packet.entity_type packet.name in
    if not from_server
    then (s, packet, forwarded)
    else (added, record packet { name = name }, handled)

-- packet.AddPainting
pub record AddPainting : Type 0 where
  pub unique_id : ℤ
  pub runtime_id : ℕ
  pub position : Vector3

-- AddPaintingHandler.Handle
unfoldable pub handle_add_painting : Bool → AddPainting → Session → Session
handle_add_painting from_server packet s =
    if not from_server
    then s
    else with_entities
        (Entity.add (record {
          unique_id = packet.unique_id;
          runtime_id = packet.runtime_id;
          actor_type = "minecraft:painting";
          position = packet.position;
        }))
        s

-- RemoveActorHandler.Handle, for the unique id of packet.RemoveActor
unfoldable pub handle_remove_actor : Bool → ℤ → Session → Session
handle_remove_actor from_server unique_id s =
    if not from_server then s else with_entities (Entity.remove_from_unique_id unique_id) s

-- packet.MoveActorAbsolute and packet.MoveActorDelta, whose coordinates may be missing.
pub data MoveActor : Type 0 where
  move_absolute : ℕ → Vector3 → MoveActor
  move_delta : ℕ → Option Float → Option Float → Option Float → MoveActor

abbrev value_or_zero : Option Float → Float
value_or_zero none = whole (pos 0)
value_or_zero (some v) = v

abbrev has_value : Option Float → Bool
has_value none = false
has_value (some v) = true

abbrev move_entity : MoveActor → Entity.Factory → Entity.Factory
move_entity (move_absolute id position) = Entity.update_position id position true true true
move_entity (move_delta id x y z) =
    Entity.update_position id
      (record { x = value_or_zero x; y = value_or_zero y; z = value_or_zero z }) (has_value x)
      (has_value y) (has_value z)

-- MoveActorHandler.Handle
unfoldable pub handle_move_actor : Bool → MoveActor → Session → Session
handle_move_actor from_server packet s =
    if not from_server then s else with_entities (move_entity packet) s

-- packet.SetActorData
pub record SetActorData : Type 0 where
  pub runtime_id : ℕ
  pub name : Option Metadata

-- SetActorDataHandler.Handle
unfoldable pub handle_set_actor_data :
    MappedTranslations → SetActorData → Session → SetActorData × Handled
handle_set_actor_data translations packet s =
    elim (Entity.by_runtime_id packet.runtime_id s.entities) [
      | none ↦ (packet, forwarded)
      | some e ↦
          let (name, handled) = rename translations s e.actor_type packet.name in
          (record packet { name = name }, handled)
    ]

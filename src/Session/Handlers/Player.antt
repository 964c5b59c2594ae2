-- ===== src/Session/Handlers/Player.antt =====
-- The handlers of what the server says of the player and of the world: session/
-- handler_change_dimension.go, handler_set_player_game_type.go, handler_update_player_game_type.go,
-- handler_update_abilities.go, handler_level_chunk.go and handler_item_registry.go.
use gobds.Base.{
  String, Bool, true, false, not, Option, none, some, List, [], ◌∷◌, ◌==◌, if◌then◌else◌,
}
use gobds.Base.Int.{ℤ, int_eq}
use gobds.Base.Dict.{Dict, insert}
use gobds.Area.{Area2D, ChunkPos, chunk_inside}
use gobds.Session.Data.{PlayerData, set_dimension, set_game_mode, set_operator}
use gobds.Session.State.{Platform, Session, LevelChunk, level_chunk, write}
use gobds.Session.Corrective.{chunk_of_position, corrective_level_chunk}
use gobds.Session.Handlers.Handling.{Handled, forwarded, cancelled}

abbrev with_player : (PlayerData → PlayerData) → Session → Session
with_player f s = record s { player = f s.player }

-- ChangeDimensionHandler.Handle, for the dimension of packet.ChangeDimension
unfoldable pub handle_change_dimension : Bool → ℤ → Session → Session
handle_change_dimension from_server dimension s =
    if from_server then with_player (set_dimension dimension) s else s

-- SetPlayerGameTypeHandler.Handle, for the game type of packet.SetPlayerGameType
unfoldable pub handle_set_player_game_type : Bool → ℤ → Session → Session
handle_set_player_game_type from_server game_type s =
    if not from_server then s else with_player (set_game_mode game_type) s

-- UpdatePlayerGameTypeHandler.Handle, for the game type and the player of packet.UpdatePlayerGameType
unfoldable pub handle_update_player_game_type : Bool → ℤ → ℤ → Session → Session
handle_update_player_game_type from_server game_type player_unique_id s =
    if not from_server
    then s
    else if not (player_unique_id == s.entity_unique_id)
    then s
    else with_player (set_game_mode game_type) s

abbrev corrected : Option LevelChunk → Session → Session
corrected none s = s
corrected (some correction) s = write (level_chunk correction) s

-- b == c of two truth values
abbrev same_flag : Bool → Bool → Bool
same_flag true c = c
same_flag false c = not c

-- UpdateAbilitiesHandler.Handle, for the player and the permissions of packet.UpdateAbilities
unfoldable pub handle_update_abilities : Platform → Bool → ℤ → ℤ → Session → Session
handle_update_abilities platform from_server unique_id permissions s =
    let operator = permissions == platform.permission_level_operator in
    let changed = with_player (set_operator operator) s in
    let correction =
      corrective_level_chunk platform (chunk_of_position platform s.afk.last_position)
        s.player.dimension s.dimensions in
    if not from_server
    then s
    else if not (unique_id == s.entity_unique_id)
    then s
    else if same_flag s.player.operator operator
    then s
    else corrected correction changed

-- LevelChunkHandler.Handle, for the place of packet.LevelChunk
unfoldable pub handle_level_chunk : ChunkPos → Option Area2D → Handled
handle_level_chunk position none = forwarded
handle_level_chunk position (some border) =
    if not (chunk_inside border position) then cancelled else forwarded

-- protocol.ItemEntry
pub record ItemEntry : Type 0 where
  pub runtime_id : ℤ
  pub name : String

abbrev item_map : List ItemEntry → Dict ℤ String → Dict ℤ String
item_map [] m = m
item_map (e ∷ es) m = item_map es (insert e.runtime_id e.name m)

-- ItemRegistryHandler.SetItems
unfoldable pub set_items : List ItemEntry → Session → Session
set_items entries s = record s { items = item_map entries [] }

-- ItemRegistryHandler.Handle, for the items of packet.ItemRegistry
unfoldable pub handle_item_registry : Bool → List ItemEntry → Session → Session
unfolding set_items
handle_item_registry from_server entries s = if not from_server then s else set_items entries s

-- ===== src/Session/State.antt =====
-- Session of session/session.go: the state of one player's connection. What a session writes is kept
-- in the order of writing. One packet is handled at one time: every reading of the clock in its
-- handler gives the same time, but for the latency that it reports.
use gobds.Base.{ℕ, String, Bool, Option, none, some, List, [], ◌∷◌, ◌++◌, nat_eq, string_eq}
use gobds.Base.Int.{ℤ}
use gobds.Base.Dict.{Dict}
use gobds.Clock.{Time, Duration}
use gobds.Float.{Float}
use gobds.Area.{Area2D, ChunkPos}
use gobds.Entity
use gobds.Claim.Model.{Vector3}
use gobds.Claim.Factory
use gobds.Claim.Metrics.{Metrics}
use gobds.Traffic.{TrafficState}
use gobds.Session.Data.{PlayerData}
use gobds.Session.Dimension.{DimensionDefinition}

-- The game's block, as far as the handlers look at it.
pub record Block : Type 0 where
  pub type_id : String
  -- It is one of the kinds that handleInteraction lists.
  pub interactive : Bool

-- Code outside the repository: the conversion of a float32 that int32 cannot hold, the rounding of a
-- refill, the comparisons of mgl32, the registry of blocks, the ranges of the standard dimensions, and
-- constants of the protocol.
pub record Platform : Type 0 where
  pub wild : Float → ℤ
  pub refilled : Float → Duration → Float → Float
  pub vec3_approx_equal : Vector3 → Vector3 → Bool
  pub float_equal : Float → Float → Bool
  pub block_by_runtime_id : ℕ → Option Block
  pub standard_range : ℤ → Option (ℤ × ℤ)
  pub game_type_creative : ℤ
  pub permission_level_operator : ℤ
  pub player_action_start_break : ℤ
  pub player_action_predict_destroy_block : ℤ
  pub player_action_continue_destroy_block : ℤ
  pub inventory_action_source_world : ℤ
  pub window_id_inventory : ℤ
  pub use_item_action_click_block : ℤ
  pub trigger_type_player_input : ℤ
  pub use_item_on_entity_action_interact : ℤ
  pub use_item_on_entity_action_attack : ℤ
  pub container_dynamic : ℤ
  pub sub_chunk_result_success : ℤ
  pub deny_runtime_id : ℕ
  pub hashed_deny_runtime_id : ℕ

-- afkState
pub record AfkState : Type 0 where
  pub last_move_time : Time
  pub last_position : Vector3
  pub last_yaw : Float
  pub last_pitch : Float
  pub warned_approaching : Bool
  pub marked_afk : Bool
  pub warned_final : Bool

-- correctiveKey
pub record CorrectiveKey : Type 0 where
  pub dimension : ℤ
  pub x : ℤ
  pub z : ℤ

-- packet.LevelChunk as correctiveLevelChunk makes it.
pub record LevelChunk : Type 0 where
  pub position : ChunkPos
  pub dimension : ℤ
  pub sub_chunk_count : ℕ
  pub sub_chunk_limit : ℤ

-- What the session writes to one of its two connections.
pub data Written : Type 0 where
  message : String → Written
  level_chunk : LevelChunk → Written
  stack_error : ℤ → Written
  ping_report : ℤ → Written
  chat_command : String → Written
  disconnect : String → Written
  form_request : ℕ → String → Written

pub record Session : Type 0 where
  pub xuid : String
  pub display_name : String
  pub locale : String
  pub entity_unique_id : ℤ
  pub dimensions : List DimensionDefinition
  pub hashed_ids : Bool
  pub entities : Entity.Factory
  -- Shared with the other sessions of the server.
  pub claims : Option Factory.Factory
  pub border : Option Area2D
  pub claim_prefilter : Bool
  pub claim_deny_rendering : Bool
  pub afk : AfkState
  pub corrective : Dict CorrectiveKey Time
  pub traffic : TrafficState
  pub last_forwarded_ping : ℤ
  pub player : PlayerData
  pub items : Dict ℤ String
  -- The names of the server's commands.
  pub command_cache : List String
  pub written : List Written

abbrev pub write : Written → Session → Session
write w s = record s { written = s.written ++ w ∷ [] }

-- A method of the claim metrics, where there is a claim factory.
abbrev pub metric_of : (Metrics → Metrics) → Option Factory.Factory → Option Factory.Factory
metric_of f none = none
metric_of f (some c) = some (record c { metrics = f c.metrics })

abbrev pub metric : (Metrics → Metrics) → Session → Session
metric f s = record s { claims = metric_of f s.claims }

-- ===== src/Session/Handlers/Inventory/Packet.antt =====
-- packet.InventoryTransaction, as far as session/handler_inventory_transaction.go looks at it.
use gobds.Base.{ℕ, ◌-◌, ◌%◌, ◌^◌, List, Option, ltb, if◌then◌else◌}
use gobds.Base.Int.{ℤ, pos, negsuc}
use gobds.Session.Positions.{BlockPos}

-- protocol.InventoryAction, with the network ids of its two items.
pub record InventoryAction : Type 0 where
  pub source_type : ℤ
  pub window_id : Option ℤ
  pub new_item_id : ℤ
  pub old_item_id : ℤ

-- protocol.UseItemTransactionData, with the ids of the held stack.
pub record UseItem : Type 0 where
  pub action_type : ℤ
  pub trigger_type : ℤ
  pub block_runtime_id : ℕ
  pub block_position : BlockPos
  pub block_face : ℤ
  pub held_network_id : ℤ
  pub held_block_runtime_id : ℤ

-- protocol.UseItemOnEntityTransactionData
pub record UseItemOnEntity : Type 0 where
  pub target_entity_runtime_id : ℕ
  pub action_type : ℤ

pub data TransactionData : Type 0 where
  use_item : UseItem → TransactionData
  use_item_on_entity : UseItemOnEntity → TransactionData
  other : TransactionData

pub record InventoryTransaction : Type 0 where
  pub actions : List InventoryAction
  pub transaction_data : TransactionData

abbrev signed16 : ℕ → ℤ
signed16 n = if ltb n (2 ^ 15) then pos n else negsuc (2 ^ 16 - 1 - n)

-- int16(v)
abbrev pub int16_of : ℤ → ℤ
int16_of (pos n) = signed16 (n % 2 ^ 16)
int16_of (negsuc n) = signed16 (2 ^ 16 - 1 - n % 2 ^ 16)

-- uint32(v)
abbrev pub uint32_of : ℤ → ℕ
uint32_of (pos n) = n % 2 ^ 32
uint32_of (negsuc n) = 2 ^ 32 - 1 - n % 2 ^ 32

-- ===== src/Session/Handlers/SubChunk/Packet.antt =====
-- packet.SubChunk, as far as session/handler_sub_chunk.go looks at it, and the library of chunks that
-- it calls.
use gobds.Base.{ℕ, ◌≡◌, Bool, ◌&&◌, Option, List, ◌==◌, nat_eq, if◌then◌else◌}
use gobds.Base.Int.{ℤ}
use gobds.Session.Positions.{BlockPos}

-- What decodeSubChunk does with some bytes: it panics, or returns an error, or gives a sub-chunk with
-- its index and the bytes that follow it.
pub data Decoding {ℓ} (C : Type ℓ) : Type ℓ where
  panics fails : Decoding C
  decoded : C → ℕ → List ℕ → Decoding C

-- The sub-chunks of the library: decodeSubChunk and EncodeSubChunk for a range of heights (with the
-- index of a sub-chunk), the number of sub-chunks of a chunk of that range, SetBlock and Block at an x,
-- a y, a z and a layer.
pub record Codec : Type 1 where
  pub Section : Type 0
  pub decode : ℤ × ℤ → List ℕ → Decoding Section
  pub encode : ℤ × ℤ → ℕ → Section → List ℕ
  pub section_count : ℤ × ℤ → ℕ
  pub set_block : ℕ → ℕ → ℕ → ℕ → ℕ → Section → Section
  pub block_at : ℕ → ℕ → ℕ → ℕ → Section → ℕ

-- SetBlock sets one block.
abbrev pub SetsOne : Codec → Type 0
SetsOne codec =
    (x y z layer id : ℕ) (c : codec.Section) (x' y' z' layer' : ℕ)
    → codec.block_at x' y' z' layer' (codec.set_block x y z layer id c) ≡ (
        if x' == x && y' == y && z' == z && layer' == layer
        then id
        else codec.block_at x' y' z' layer' c)

-- protocol.SubChunkEntry
pub record SubChunkEntry : Type 0 where
  pub offset_x : ℤ
  pub offset_y : ℤ
  pub offset_z : ℤ
  pub result : ℤ
  pub raw_payload : Option (List ℕ)

pub record SubChunkPacket : Type 0 where
  pub cache_enabled : Bool
  pub dimension : ℤ
  pub position : BlockPos
  pub entries : List SubChunkEntry

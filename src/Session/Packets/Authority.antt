-- ===== src/Session/Packets/Authority.antt =====
-- What a client cannot change: what the server decides of its player and of the world.
pub mod Clicks
pub mod Moves
pub mod Runs
use gobds.Base.{
  ℕ, ◌≡◌, refl, sym, ap, ◌∙◌, String, Bool, true, false, not, ◌||◌, Option, none, some, List, [],
  ◌∷◌, ◌==◌, nat_eq, Option-cases, inl, inr, if_both, if◌then◌else◌,
}
use gobds.Base.Int.{ℤ, int_eq}
use gobds.Base.Dict.{Dict}
use gobds.Clock.{Time, Duration}
use gobds.Area.{Area2D, ChunkPos, chunk_of}
use gobds.Claim.Model.{Vector3}
use gobds.Entity
use gobds.Session.State.{Platform, Session, LevelChunk}
use gobds.Session.Dimension.{DimensionDefinition}
use gobds.Session.Corrective.{allow_corrective, claim_message, say_if, corrective_level_chunk}
use gobds.Session.Positions.{BlockPos}

-- The dimension, the game mode and the rank of the player, the entities, the items, the dimensions and
-- the border, and who the player is.
pub record Authority : Type 0 where
  pub dimension : ℤ
  pub gamemode : ℤ
  pub operator : Bool
  pub entities : Entity.Factory
  pub items : Dict ℤ String
  pub dimensions : List DimensionDefinition
  pub border : Option Area2D
  pub xuid : String
  pub entity_unique_id : ℤ

abbrev pub authority : Session → Authority
authority s = record {
  dimension = s.player.dimension;
  gamemode = s.player.gamemode;
  operator = s.player.operator;
  entities = s.entities;
  items = s.items;
  dimensions = s.dimensions;
  border = s.border;
  xuid = s.xuid;
  entity_unique_id = s.entity_unique_id;
}

-- A session with the same.
pub record Keeps (s t : Session) : Type 0 where
  pub same : authority t ≡ authority s

pub Keeps-refl : (s : Session) → Keeps s s
Keeps-refl s = record { same = refl }

pub Keeps-trans : {s t u : Session} → Keeps s t → Keeps t u → Keeps s u
Keeps-trans h k = record { same = k.same ∙ h.same }

-- A session, with an answer, that has the same.
pub record Kept {A : Type 0} (s : Session) (r : Session × A) : Type 0 where
  pub keeps : Keeps s r.0

pub either :
    {A : Type 0} (s : Session) (b : Bool) {x y : Session × A}
    → Kept s x
    → Kept s y
    → Kept s (if b then x else y)
either s b h k = if_both (Kept s) b h k

pub kept : {A : Type 0} (s t : Session) (a : A) → authority t ≡ authority s → Kept s (t, a)
kept s t a e = record { keeps = record { same = e } }

pub after : {A : Type 0} {s t : Session} {r : Session × A} → Keeps s t → Kept t r → Kept s r
after h k = record { keeps = Keeps-trans h k.keeps }

allow_corrective-Keeps :
    (chunk : ChunkPos) (d : Duration) (now : Time) (s : Session)
    → Keeps s (allow_corrective chunk d now s).0
unfolding allow_corrective
allow_corrective-Keeps chunk d now s = (either s _ (kept s s false refl) (kept s _ true refl)).keeps

say_if-Keeps : (text : String) (r : Session × Bool) → Keeps r.0 (say_if text r)
say_if-Keeps text (s, true) = record { same = refl }
say_if-Keeps text (s, false) = record { same = refl }

pub claim_message-Keeps :
    (platform : Platform) (p : Vector3) (text : String) (now : Time) (s : Session)
    → Keeps s (claim_message platform p text now s)
unfolding claim_message
claim_message-Keeps platform p text now s =
    Keeps-trans (allow_corrective-Keeps _ _ now s) (say_if-Keeps text _)

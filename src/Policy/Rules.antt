-- ===== src/Policy/Rules.antt =====
-- The rules by which session/util_claim_action.go decides on an action.
use gobds.Base.{String, ◌≡◌, ◌⊎◌, true, false, List, [], ◌∷◌, contains, string_eq}
use gobds.Claim.Model.{
  Vector3, Feature, PlayerClaim, feature_type_mineable, feature_type_block_placeable,
  feature_type_block_interactable, feature_type_entity_interactable, feature_type_entity_hurt,
  feature_type_drop_items,
}
use gobds.Geometry.{inside_vector3, feature_bounds, inside_feature}
use gobds.Policy.{
  ClaimAction, render, block_break, block_place, block_interact, entity_interact, entity_hurt,
  item_release, item_throw, item_drop, Payload, vec3, action_data, ClaimActor, valid_claim,
  feature_allows_type, is_public_block,
}

-- Some item of a list has a property.
abbrev pub Any {ℓ} : {A : Type ℓ} → (A → Type 0) → List A → Type 0
Any P [] = ⊥
Any P (x ∷ xs) = P x ⊎ Any P xs

-- A feature of the given kind lies over the position and allows the id.
abbrev pub Grants : PlayerClaim → Vector3 → String → String → Feature → Type 0
Grants c v id kind f =
    (f.type ≡ kind) × (inside_feature c f v ≡ true) × (feature_allows_type f kind id ≡ true)

-- A feature that lets blocks be broken or placed lies over the position, at any height.
abbrev pub Opens : PlayerClaim → Vector3 → Feature → Type 0
Opens c v f =
    ((f.type ≡ feature_type_mineable) ⊎ (f.type ≡ feature_type_block_placeable))
    × (inside_vector3 v (feature_bounds c f).0 (feature_bounds c f).1 ≡ true)

-- The kind of feature that permits an action.
pub data Governs : ClaimAction → String → Type 0 where
  mining : Governs block_break feature_type_mineable
  placing : Governs block_place feature_type_block_placeable
  using_blocks : Governs block_interact feature_type_block_interactable
  using_entities : Governs entity_interact feature_type_entity_interactable
  hurting : Governs entity_hurt feature_type_entity_hurt
  dropping : Governs item_drop feature_type_drop_items

-- Why an action is permitted at a position, with a type id that may be empty.
pub data Permits (c : PlayerClaim) (actor : ClaimActor) (v : Vector3) (id : String)
    : ClaimAction → Type 0 where
  unclaimed : {a : ClaimAction} → valid_claim c ≡ false → Permits c actor v id a
  anonymous : {a : ClaimAction} → actor.xuid ≡ "" → Permits c actor v id a
  owner : {a : ClaimAction} → c.owner_xuid ≡ actor.xuid → Permits c actor v id a
  trusted : {a : ClaimAction} → contains c.trusted_xuids actor.xuid ≡ true → Permits c actor v id a
  by_operator : {a : ClaimAction} → actor.operator ≡ true → Permits c actor v id a
  releasing : Permits c actor v id item_release
  throwing : Permits c actor v id item_throw
  granted :
      {a : ClaimAction} (kind : String)
      → Governs a kind
      → Any (Grants c v id kind) c.features
      → Permits c actor v id a
  opened : Any (Opens c v) c.features → Permits c actor v id render
  admin_entity : c.owner_xuid ≡ "*" → Permits c actor v id entity_interact
  admin_drop : c.owner_xuid ≡ "*" → Permits c actor v id item_drop
  admin_block :
      c.owner_xuid ≡ "*"
      → (id ≡ "") ⊎ (is_public_block id ≡ true)
      → Permits c actor v id block_interact

-- What the handlers pass with an action: a bare position to draw deny blocks, else an id too.
abbrev pub payload_for : ClaimAction → Vector3 → String → Payload
payload_for render v id = vec3 v
payload_for a v id = action_data v id

-- ===== src/Policy/Laws.antt =====
-- The decision of session/util_claim_action.go as rules.
use gobds.Base.{
  String, ◌≡◌, refl, ◌↔◌, ◌⊎◌, inl, inr, true, ◌&&◌, List, [], ◌∷◌, ◌==◌, contains, string_eq,
  Bool-cases, ==→≡, and_left, and_right, arith,
}
use gobds.Claim.Model.{Vector3, Feature, PlayerClaim}
use gobds.Policy.{
  ClaimAction, render, block_break, block_place, block_interact, entity_interact, entity_hurt,
  item_release, item_throw, item_drop, action_data, ClaimActor, ClaimActionData,
  claim_action_data_from, valid_claim, claim_owner_or_trusted, some_feature,
  handle_claim_action_in_feature, feature_removes_deny_block, renders, handle_claim_action_render,
  is_public_block, admin_claim_block_interaction_allowed, claim_action_block_interact_permitted,
  claim_action_entity_interact_permitted, claim_action_item_drop_permitted, permitted_by_action,
  claim_action_permitted,
}
use gobds.Policy.Rules.{
  Any, Grants, Opens, Governs, Permits, payload_for, mining, placing, using_blocks, using_entities,
  hurting, dropping, unclaimed, anonymous, owner, trusted, by_operator, releasing, throwing,
  granted, opened, admin_entity, admin_drop, admin_block,
}

module _ (c : PlayerClaim) (v : Vector3) (id kind : String) where
  abbrev at_position : ClaimActionData
  at_position = record { position = v; type_id = id }

  Any-of-some_feature :
      (fs : List Feature) → some_feature c at_position kind fs ≡ true → Any (Grants c v id kind) fs
  unfolding some_feature
  Any-of-some_feature [] h = cc
  Any-of-some_feature (f ∷ fs) h = ground (arith, Any-of-some_feature fs)

  some_feature-of-Any :
      (fs : List Feature) → Any (Grants c v id kind) fs → some_feature c at_position kind fs ≡ true
  unfolding some_feature
  some_feature-of-Any [] h = absurd h
  some_feature-of-Any (f ∷ fs) h = ground (arith, some_feature-of-Any fs)

module _ (c : PlayerClaim) (v : Vector3) where
  Any-of-renders : (fs : List Feature) → renders c v fs ≡ true → Any (Opens c v) fs
  unfolding renders feature_removes_deny_block
  Any-of-renders [] h = cc
  Any-of-renders (f ∷ fs) h = ground (arith, Any-of-renders fs)

  renders-of-Any : (fs : List Feature) → Any (Opens c v) fs → renders c v fs ≡ true
  unfolding renders feature_removes_deny_block
  renders-of-Any [] h = absurd h
  renders-of-Any (f ∷ fs) h = ground (arith, renders-of-Any fs)

in_feature-action_data :
    (c : PlayerClaim) (v : Vector3) (id kind : String)
    → handle_claim_action_in_feature c (action_data v id) kind
      ≡ some_feature c (record { position = v; type_id = id }) kind c.features
unfolding handle_claim_action_in_feature claim_action_data_from
in_feature-action_data c v id kind = refl

module _ (c : PlayerClaim) (actor : ClaimActor) (v : Vector3) (id : String) where
  Permits-of-feature :
      (a : ClaimAction) (kind : String)
      → Governs a kind
      → handle_claim_action_in_feature c (action_data v id) kind ≡ true
      → Permits c actor v id a
  Permits-of-feature a kind g h =
      granted kind g
        (Any-of-some_feature c v id kind c.features (rw (in_feature-action_data c v id kind) at h))

  admin_block_cases :
      admin_claim_block_interaction_allowed (action_data v id) ≡ true
      → (id ≡ "") ⊎ (is_public_block id ≡ true)
  unfolding admin_claim_block_interaction_allowed claim_action_data_from
  admin_block_cases h = ground arith

  Permits-of-switch :
      (a : ClaimAction)
      → permitted_by_action c a (payload_for a v id) ≡ true
      → Permits c actor v id a
  unfolding permitted_by_action handle_claim_action_render claim_action_block_interact_permitted
      claim_action_entity_interact_permitted claim_action_item_drop_permitted
  Permits-of-switch render h = opened (Any-of-renders c v c.features h)
  Permits-of-switch block_break h = Permits-of-feature block_break _ mining h
  Permits-of-switch block_place h = Permits-of-feature block_place _ placing h
  Permits-of-switch block_interact h =
      elim (Bool-cases
        (c.owner_xuid == "*" && admin_claim_block_interaction_allowed (action_data v id))) [
          | inl e ↦
              admin_block
                (==→≡ c.owner_xuid "*"
                  (and_left _ (admin_claim_block_interaction_allowed (action_data v id)) e))
                (admin_block_cases (and_right (c.owner_xuid == "*") _ e))
          | inr e ↦ Permits-of-feature block_interact _ using_blocks (ground arith)
        ]
  Permits-of-switch entity_interact h = elim (Bool-cases (c.owner_xuid == "*")) [
    | inl e ↦ admin_entity (==→≡ c.owner_xuid "*" e)
    | inr e ↦ Permits-of-feature entity_interact _ using_entities (ground arith)
  ]
  Permits-of-switch entity_hurt h = Permits-of-feature entity_hurt _ hurting h
  Permits-of-switch item_release h = releasing
  Permits-of-switch item_throw h = throwing
  Permits-of-switch item_drop h = elim (Bool-cases (c.owner_xuid == "*")) [
    | inl e ↦ admin_drop (==→≡ c.owner_xuid "*" e)
    | inr e ↦ Permits-of-feature item_drop _ dropping (ground arith)
  ]

  switch-of-feature :
      (kind : String)
      → Any (Grants c v id kind) c.features
      → handle_claim_action_in_feature c (action_data v id) kind ≡ true
  switch-of-feature kind g =
      rw (in_feature-action_data c v id kind) (some_feature-of-Any c v id kind c.features g)

  permitted-of-switch :
      (a : ClaimAction)
      → permitted_by_action c a (payload_for a v id) ≡ true
      → claim_action_permitted c actor a (payload_for a v id) ≡ true
  unfolding claim_action_permitted
  permitted-of-switch a h = ground arith

  permitted-of-Permits :
      (a : ClaimAction)
      → Permits c actor v id a
      → claim_action_permitted c actor a (payload_for a v id) ≡ true
  unfolding claim_action_permitted claim_owner_or_trusted permitted_by_action
      handle_claim_action_render claim_action_block_interact_permitted
      claim_action_entity_interact_permitted claim_action_item_drop_permitted
      admin_claim_block_interaction_allowed claim_action_data_from
  permitted-of-Permits a (unclaimed e) = ground arith
  permitted-of-Permits a (anonymous e) = ground arith
  permitted-of-Permits a (owner e) = ground arith
  permitted-of-Permits a (trusted e) = ground arith
  permitted-of-Permits a (by_operator e) = ground arith
  permitted-of-Permits _ releasing = ground arith
  permitted-of-Permits _ throwing = ground arith
  permitted-of-Permits _ (granted kind mining any) =
      permitted-of-switch block_break (switch-of-feature kind any)
  permitted-of-Permits _ (granted kind placing any) =
      permitted-of-switch block_place (switch-of-feature kind any)
  permitted-of-Permits _ (granted kind using_blocks any) =
      permitted-of-switch block_interact (ground (arith, switch-of-feature kind any))
  permitted-of-Permits _ (granted kind using_entities any) =
      permitted-of-switch entity_interact (ground (arith, switch-of-feature kind any))
  permitted-of-Permits _ (granted kind hurting any) =
      permitted-of-switch entity_hurt (switch-of-feature kind any)
  permitted-of-Permits _ (granted kind dropping any) =
      permitted-of-switch item_drop (ground (arith, switch-of-feature kind any))
  permitted-of-Permits _ (opened any) =
      permitted-of-switch render (renders-of-Any c v c.features any)
  permitted-of-Permits _ (admin_entity e) = permitted-of-switch entity_interact (ground arith)
  permitted-of-Permits _ (admin_drop e) = permitted-of-switch item_drop (ground arith)
  permitted-of-Permits _ (admin_block e k) = permitted-of-switch block_interact (ground arith)

  Permits-of-permitted :
      (a : ClaimAction)
      → claim_action_permitted c actor a (payload_for a v id) ≡ true
      → Permits c actor v id a
  unfolding claim_action_permitted claim_owner_or_trusted
  Permits-of-permitted a h = elim (Bool-cases (valid_claim c)) [
    | inr e ↦ unclaimed e
    | inl valid ↦ elim (Bool-cases (actor.xuid == "")) [
      | inl e ↦ anonymous (==→≡ actor.xuid "" e)
      | inr named ↦ elim (Bool-cases (c.owner_xuid == actor.xuid)) [
        | inl e ↦ owner (==→≡ c.owner_xuid actor.xuid e)
        | inr foreign ↦ elim (Bool-cases (contains c.trusted_xuids actor.xuid)) [
          | inl e ↦ trusted e
          | inr stranger ↦ elim (Bool-cases actor.operator) [
            | inl e ↦ by_operator e
            | inr plain ↦ Permits-of-switch a (ground arith)
          ]
        ]
      ]
    ]
  ]

  -- The decision on an action, with the arguments that the handlers pass, is "permitted" exactly
  -- when one of the rules of Permits applies.
  pub claim_action_permitted_iff :
      (a : ClaimAction)
      → (claim_action_permitted c actor a (payload_for a v id) ≡ true) ↔ Permits c actor v id a
  claim_action_permitted_iff a = (Permits-of-permitted a, permitted-of-Permits a)

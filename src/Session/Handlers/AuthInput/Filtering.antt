-- ===== src/Session/Handlers/AuthInput/Filtering.antt =====
-- Which block actions handler_player_auth_input.go forwards.
use gobds.Base.{
  ◌≡◌, refl, sym, ap, ◌∙◌, subst, Bool, true, false, not, ◌&&◌, some, List, [], ◌∷◌, keep, nat_eq,
  if◌then◌else◌, arith, Bool-cases, inl, inr,
}
use gobds.Base.Int.{int_eq}
use gobds.Clock.{Time}
use gobds.Claim.Metrics.{Metrics}
use gobds.Claim.Factory.{Factory}
use gobds.Policy.{block_break, vec3}
use gobds.Session.State.{Platform, Session}
use gobds.Session.Claims.{decide, session_claim_action_permitted}
use gobds.Session.Claims.Stability.{with_metrics, session_claim_action_permitted-with_metrics}
use gobds.Session.Positions.{block_pos_to_vec3, caller_of, permits, outside_border}
use gobds.Session.Handlers.AuthInput.{
  BlockAction, kept_first, denied_first, is_filterable_block_action, denied_action, Filtered,
  filter_actions,
}

-- The border or a claim refuses an action, by the session as it is.
abbrev pub refuses : Platform → Time → Session → BlockAction → Bool
refuses platform now s a = (denied_action platform now a s).1

-- An action that is forwarded.
abbrev pub stays : Platform → Time → Session → BlockAction → Bool
stays platform now s a =
    not (is_filterable_block_action platform a.action && refuses platform now s a)

-- The session with a factory that has counted something.
abbrev pub counting : Session → Factory → Metrics → Session
counting s f m = record s { claims = some (with_metrics m f) }

module _ (platform : Platform) (now : Time) (s : Session) (f : Factory) (m0 : Metrics) where
  abbrev counted_by : BlockAction → Metrics → Metrics
  counted_by a m =
      (decide platform.wild (caller_of s) block_break (vec3 (block_pos_to_vec3 a.block_pos)) now
        (with_metrics m f)).1

  inside_denied :
      (a : BlockAction) (t : Session)
      → outside_border t.border a.block_pos.x a.block_pos.z ≡ false
      → (denied_action platform now a t).1
        ≡ not (permits platform block_break (vec3 (block_pos_to_vec3 a.block_pos)) now t).1
  unfolding denied_action
  inside_denied a t inside = rw inside refl

  pub denied_action-counting :
      (a : BlockAction) (m : Metrics)
      → (m' : Metrics) × ((denied_action platform now a (counting s f m)).0 ≡ counting s f m')
        × ((denied_action platform now a (counting s f m)).1
            ≡ refuses platform now (counting s f m0) a)
  unfolding denied_action session_claim_action_permitted
  denied_action-counting a m =
      elim (Bool-cases (outside_border s.border a.block_pos.x a.block_pos.z)) [
        | inl outside ↦ (m, rw outside refl, ground arith)
        | inr inside ↦ (
          counted_by a m,
          rw inside refl,
          inside_denied a (counting s f m) inside
              ∙ ap not (
                  session_claim_action_permitted-with_metrics platform.wild (caller_of s)
                    block_break (vec3 (block_pos_to_vec3 a.block_pos)) m m0 now f)
              ∙ sym (inside_denied a (counting s f m0) inside),
        )
      ]

  abbrev stays_now : BlockAction → Bool
  stays_now a = stays platform now (counting s f m0) a

  -- What the loop leaves.
  abbrev FilteredBy : List BlockAction → Filtered → Type 0
  FilteredBy actions r =
      (m' : Metrics) × (r.session ≡ counting s f m') × (r.actions ≡ keep stays_now actions)

  by_flags :
      (filterable d d0 : Bool) (a : BlockAction) (rest : List BlockAction)
      (skipped taken : Filtered)
      → d ≡ d0
      → FilteredBy rest skipped
      → FilteredBy rest taken
      → let r =
          if not filterable
          then kept_first a skipped
          else if not d
          then kept_first a taken
          else denied_first a taken in
        (m' : Metrics) × (r.session ≡ counting s f m')
        × (r.actions
            ≡ (if not (filterable && d0) then a ∷ keep stays_now rest else keep stays_now rest))
  by_flags false d d0 a rest skipped taken e (m, k, l) h = (m, k, ap (λ others. a ∷ others) l)
  by_flags true false d0 a rest skipped taken e h (m, k, l) =
      (m, k, rw (sym e) (ap (λ others. a ∷ others) l))
  by_flags true true d0 a rest skipped taken e h (m, k, l) = (m, k, rw (sym e) l)

  pub filter_actions-FilteredBy :
      (actions : List BlockAction) (m : Metrics)
      → FilteredBy actions (filter_actions platform now actions (counting s f m))
  unfolding filter_actions keep
  filter_actions-FilteredBy [] m = (m, refl, refl)
  filter_actions-FilteredBy (a ∷ rest) m =
      let (m1, left, answer) = denied_action-counting a m in
      by_flags (is_filterable_block_action platform a.action)
        (denied_action platform now a (counting s f m)).1 (refuses platform now (counting s f m0) a)
        a rest (filter_actions platform now rest (counting s f m))
        (filter_actions platform now rest (denied_action platform now a (counting s f m)).0) answer
        (filter_actions-FilteredBy rest m)
        (subst (λ t. FilteredBy rest (filter_actions platform now rest t)) (sym left)
          (filter_actions-FilteredBy rest m1))

-- ===== src/Traffic/Modes.antt =====
-- The limits of session/traffic.go once their defaults are filled in, and the two modes: observing
-- and enforcing.
use gobds.Base.{ℕ, ◌≡◌, refl, Bool, true, false, not, ◌&&◌, arith}
use gobds.Base.Int.{ℤ, pos, leb_ℤ}
use gobds.Clock.{Time, Duration}
use gobds.Float.{Float, fin, float_le}
use gobds.Traffic.Config.{
  RateLimit, TrafficConfig, set_default_rate, set_default_burst, with_defaults,
  default_traffic_config,
}
use gobds.Traffic.Bucket.{allow_token}
use gobds.Traffic.{TrafficMetrics, observe, TrafficState, allow}

-- Not at most zero.
abbrev IsAbove : ℤ → Type 0
IsAbove v = leb_ℤ v (pos 0) ≡ false

-- A rate that is NaN passes: it is not at most zero.
abbrev IsLimit : RateLimit → Type 0
IsLimit l = (float_le l.rate (fin (pos 0)) ≡ false) × IsAbove l.burst

pub record IsFilled (c : TrafficConfig) : Type 0 where
  pub chat : IsLimit c.chat
  pub commands : IsLimit c.commands
  pub modal_form_responses : IsLimit c.modal_form_responses
  pub inventory_transactions : IsLimit c.inventory_transactions
  pub item_stack_requests : IsLimit c.item_stack_requests
  pub max_text_bytes : IsAbove c.max_text_bytes
  pub max_command_bytes : IsAbove c.max_command_bytes
  pub max_form_response_bytes : IsAbove c.max_form_response_bytes
  pub max_form_response_values : IsAbove c.max_form_response_values
  pub max_inventory_actions : IsAbove c.max_inventory_actions
  pub max_stack_requests : IsAbove c.max_stack_requests
  pub max_stack_actions : IsAbove c.max_stack_actions
  pub max_total_stack_actions : IsAbove c.max_total_stack_actions

set_default_burst-IsAbove : (v def : ℤ) → IsAbove def → IsAbove (set_default_burst v def)
unfolding set_default_burst
set_default_burst-IsAbove v def h = ground arith

set_default_rate-above :
    (v def : Float)
    → float_le def (fin (pos 0)) ≡ false
    → float_le (set_default_rate v def) (fin (pos 0)) ≡ false
unfolding set_default_rate
set_default_rate-above v def h = ground arith

set_default_burst-id : (v def : ℤ) → IsAbove v → set_default_burst v def ≡ v
unfolding set_default_burst
set_default_burst-id v def h = ground arith

set_default_rate-id :
    (v def : Float) → float_le v (fin (pos 0)) ≡ false → set_default_rate v def ≡ v
unfolding set_default_rate
set_default_rate-id v def h = ground arith

with_defaults-IsFilled : (c : TrafficConfig) → IsFilled (with_defaults c)
unfolding with_defaults
with_defaults-IsFilled c = record {
  chat = (set_default_rate-above c.chat.rate _ refl, set_default_burst-IsAbove c.chat.burst _ refl);
  commands = (
    set_default_rate-above c.commands.rate _ refl,
    set_default_burst-IsAbove c.commands.burst _ refl,
  );
  modal_form_responses = (
    set_default_rate-above c.modal_form_responses.rate _ refl,
    set_default_burst-IsAbove c.modal_form_responses.burst _ refl,
  );
  inventory_transactions = (
    set_default_rate-above c.inventory_transactions.rate _ refl,
    set_default_burst-IsAbove c.inventory_transactions.burst _ refl,
  );
  item_stack_requests = (
    set_default_rate-above c.item_stack_requests.rate _ refl,
    set_default_burst-IsAbove c.item_stack_requests.burst _ refl,
  );
  max_text_bytes = set_default_burst-IsAbove c.max_text_bytes _ refl;
  max_command_bytes = set_default_burst-IsAbove c.max_command_bytes _ refl;
  max_form_response_bytes = set_default_burst-IsAbove c.max_form_response_bytes _ refl;
  max_form_response_values = set_default_burst-IsAbove c.max_form_response_values _ refl;
  max_inventory_actions = set_default_burst-IsAbove c.max_inventory_actions _ refl;
  max_stack_requests = set_default_burst-IsAbove c.max_stack_requests _ refl;
  max_stack_actions = set_default_burst-IsAbove c.max_stack_actions _ refl;
  max_total_stack_actions = set_default_burst-IsAbove c.max_total_stack_actions _ refl;
}

with_defaults-id : (c : TrafficConfig) → IsFilled c → with_defaults c ≡ c
unfolding with_defaults
with_defaults-id c h i = record {
  enforce = c.enforce;
  chat = record {
    rate = set_default_rate-id c.chat.rate default_traffic_config.chat.rate h.chat.0 i;
    burst = set_default_burst-id c.chat.burst default_traffic_config.chat.burst h.chat.1 i;
  };
  commands = record {
    rate = set_default_rate-id c.commands.rate default_traffic_config.commands.rate h.commands.0 i;
    burst =
        set_default_burst-id c.commands.burst default_traffic_config.commands.burst h.commands.1 i;
  };
  modal_form_responses = record {
    rate =
        set_default_rate-id c.modal_form_responses.rate
          default_traffic_config.modal_form_responses.rate h.modal_form_responses.0 i;
    burst =
        set_default_burst-id c.modal_form_responses.burst
          default_traffic_config.modal_form_responses.burst h.modal_form_responses.1 i;
  };
  inventory_transactions = record {
    rate =
        set_default_rate-id c.inventory_transactions.rate
          default_traffic_config.inventory_transactions.rate h.inventory_transactions.0 i;
    burst =
        set_default_burst-id c.inventory_transactions.burst
          default_traffic_config.inventory_transactions.burst h.inventory_transactions.1 i;
  };
  item_stack_requests = record {
    rate =
        set_default_rate-id c.item_stack_requests.rate
          default_traffic_config.item_stack_requests.rate h.item_stack_requests.0 i;
    burst =
        set_default_burst-id c.item_stack_requests.burst
          default_traffic_config.item_stack_requests.burst h.item_stack_requests.1 i;
  };
  max_text_bytes =
      set_default_burst-id c.max_text_bytes default_traffic_config.max_text_bytes h.max_text_bytes
        i;
  max_command_bytes =
      set_default_burst-id c.max_command_bytes default_traffic_config.max_command_bytes
        h.max_command_bytes i;
  max_form_response_bytes =
      set_default_burst-id c.max_form_response_bytes default_traffic_config.max_form_response_bytes
        h.max_form_response_bytes i;
  max_form_response_values =
      set_default_burst-id c.max_form_response_values
        default_traffic_config.max_form_response_values h.max_form_response_values i;
  max_inventory_actions =
      set_default_burst-id c.max_inventory_actions default_traffic_config.max_inventory_actions
        h.max_inventory_actions i;
  max_stack_requests =
      set_default_burst-id c.max_stack_requests default_traffic_config.max_stack_requests
        h.max_stack_requests i;
  max_stack_actions =
      set_default_burst-id c.max_stack_actions default_traffic_config.max_stack_actions
        h.max_stack_actions i;
  max_total_stack_actions =
      set_default_burst-id c.max_total_stack_actions default_traffic_config.max_total_stack_actions
        h.max_total_stack_actions i;
}

-- Once the defaults are filled in, no rate and no limit is at most zero (a rate that is NaN counts as
-- not at most zero, and is kept), and filling them in once more changes nothing.
pub with_defaults-with_defaults :
    (c : TrafficConfig)
    → IsFilled (with_defaults c) × (with_defaults (with_defaults c) ≡ with_defaults c)
with_defaults-with_defaults c =
    (with_defaults-IsFilled c, with_defaults-id (with_defaults c) (with_defaults-IsFilled c))

-- The state with the limits enforced, or only observed.
abbrev pub in_mode : Bool → TrafficState → TrafficState
in_mode b t = record t { config = record (t.config) { enforce = b } }

observe-counts :
    (category : ℕ) (e f g : Bool) (m : TrafficMetrics)
    → ((observe category e f m).observed ≡ (observe category e g m).observed)
      × ((observe category e f m).exceeded ≡ (observe category e g m).exceeded)
unfolding observe
observe-counts category e f g m = ground arith

-- Observing lets every packet pass, and keeps the same buckets and the same counts of packets and of
-- packets over the limit as enforcing; enforcing refuses exactly those that the bucket refuses.
pub allow-in_mode :
    (refilled : Float → Duration → Float → Float) (category : ℕ) (now : Time) (t : TrafficState)
    → let (on, passes) = allow refilled category now (in_mode true t) in
      let (off, passes') = allow refilled category now (in_mode false t) in
      (passes' ≡ true)
      × (passes ≡ (allow_token refilled now (t.buckets category)).1)
      × (on.buckets ≡ off.buckets)
      × (on.session.observed ≡ off.session.observed)
      × (on.session.exceeded ≡ off.session.exceeded)
unfolding allow
allow-in_mode refilled category now t =
    let e = not (allow_token refilled now (t.buckets category)).1 in
    let (seen, over) = observe-counts category e (e && true) (e && false) t.session in
    (ground arith, ground arith, refl, seen, over)

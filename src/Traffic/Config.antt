-- ===== src/Traffic/Config.antt =====
-- TrafficConfig of session/traffic.go and its defaults. A rate is a float64 in units of 2^-1074, of
-- which every float64 is a whole number.
use gobds.Base.{ℕ, ◌+◌, ◌-◌, ◌*◌, ◌^◌, Bool, false, if◌then◌else◌}
use gobds.Base.Int.{ℤ, pos, negsuc, leb_ℤ}
use gobds.Float.{Float, fin, float_le}

-- float64(n) for a number below 2^53.
abbrev pub one_token : ℕ
one_token = 2 ^ 1074

abbrev pub float64_of : ℤ → Float
float64_of (pos n) = fin (pos (n * one_token))
float64_of (negsuc n) = fin (negsuc (n * one_token + (2 ^ 1074 - 1)))

pub record RateLimit : Type 0 where
  pub rate : Float
  pub burst : ℤ

pub record TrafficConfig : Type 0 where
  pub enforce : Bool
  pub chat : RateLimit
  pub commands : RateLimit
  pub modal_form_responses : RateLimit
  pub inventory_transactions : RateLimit
  pub item_stack_requests : RateLimit
  pub max_text_bytes : ℤ
  pub max_command_bytes : ℤ
  pub max_form_response_bytes : ℤ
  pub max_form_response_values : ℤ
  pub max_inventory_actions : ℤ
  pub max_stack_requests : ℤ
  pub max_stack_actions : ℤ
  pub max_total_stack_actions : ℤ

abbrev limit : ℕ → ℕ → RateLimit
limit rate burst = record { rate = float64_of (pos rate); burst = pos burst }

abbrev pub default_traffic_config : TrafficConfig
default_traffic_config = record {
  enforce = false;
  chat = limit 8 16;
  commands = limit 4 8;
  modal_form_responses = limit 10 20;
  inventory_transactions = limit 60 120;
  item_stack_requests = limit 40 80;
  max_text_bytes = pos (4 * 2 ^ 10);
  max_command_bytes = pos (4 * 2 ^ 10);
  max_form_response_bytes = pos (64 * 2 ^ 10);
  max_form_response_values = pos 128;
  max_inventory_actions = pos 128;
  max_stack_requests = pos 64;
  max_stack_actions = pos 128;
  max_total_stack_actions = pos 256;
}

unfoldable pub set_default_rate : Float → Float → Float
set_default_rate v def = if float_le v (fin (pos 0)) then def else v

unfoldable pub set_default_burst : ℤ → ℤ → ℤ
set_default_burst v def = if leb_ℤ v (pos 0) then def else v

abbrev limit_or : RateLimit → RateLimit → RateLimit
limit_or l def = record {
  rate = set_default_rate l.rate def.rate;
  burst = set_default_burst l.burst def.burst;
}

unfoldable pub with_defaults : TrafficConfig → TrafficConfig
with_defaults c =
    let d = default_traffic_config in
    record {
      enforce = c.enforce;
      chat = limit_or c.chat d.chat;
      commands = limit_or c.commands d.commands;
      modal_form_responses = limit_or c.modal_form_responses d.modal_form_responses;
      inventory_transactions = limit_or c.inventory_transactions d.inventory_transactions;
      item_stack_requests = limit_or c.item_stack_requests d.item_stack_requests;
      max_text_bytes = set_default_burst c.max_text_bytes d.max_text_bytes;
      max_command_bytes = set_default_burst c.max_command_bytes d.max_command_bytes;
      max_form_response_bytes =
          set_default_burst c.max_form_response_bytes d.max_form_response_bytes;
      max_form_response_values =
          set_default_burst c.max_form_response_values d.max_form_response_values;
      max_inventory_actions = set_default_burst c.max_inventory_actions d.max_inventory_actions;
      max_stack_requests = set_default_burst c.max_stack_requests d.max_stack_requests;
      max_stack_actions = set_default_burst c.max_stack_actions d.max_stack_actions;
      max_total_stack_actions =
          set_default_burst c.max_total_stack_actions d.max_total_stack_actions;
    }

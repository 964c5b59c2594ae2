-- ===== src/Session/Handlers/AvailableCommands/Codes.antt =====
-- Constants of the protocol that session/handler_available_commands.go uses.
use gobds.Base.{ℕ}

pub record CommandCodes : Type 0 where
  pub permission_level_any : ℕ
  pub param_option_collapse_enum : ℕ
  pub arg_valid : ℕ
  pub arg_enum : ℕ
  pub arg_soft_enum : ℕ
  pub arg_suffixed : ℕ
  pub arg_type_int : ℕ
  pub arg_type_float : ℕ
  pub arg_type_value : ℕ
  pub arg_type_target : ℕ
  pub arg_type_string : ℕ
  pub arg_type_raw_text : ℕ
  pub arg_type_position : ℕ

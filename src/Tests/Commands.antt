-- ===== src/Tests/Commands.antt =====
-- Custom commands for the tests of gobds/cmd and session/handler_available_commands.go.
use gobds.Base.{◌≡◌, ◌↔◌, refl, String, Bool, true, false, List, [], ◌∷◌, map, length}
use gobds.Base.{string_eq, ℕ_discrete}
use gobds.Base.Dict.{lookup, insert}
use gobds.Strings.{concat}
use gobds.Commands.{
  Command, Attributes, EngineResponseCommand, node, Children, no_child, child,
  build_command_overloads, param_of, command_of, commands, load_from, path_overloads,
  build_command_paths, register, type_value,
}
use gobds.Commands.Paths.{Among, LeadsBelow, build_command_overloads_iff}
use gobds.Session.Handlers.AvailableCommands.Codes.{CommandCodes}
use gobds.Session.Handlers.AvailableCommands.{
  AvailableCommands, append_custom_commands, append_commands, append_command, process_params,
  process_overload, process_param, value_to_param_type, dynamic_enum_index, enum_index, handle_enum,
  handle_suffix, index_from, new_command_builder, process_aliases, suffix_index, value_index,
  value_indices_of,
}

abbrev literal : String → Bool → Attributes
literal name can_be_called = record {
  name = name;
  description = "";
  aliases = [];
  type = "literal";
  allowed_type_values = [];
  can_be_called = can_be_called;
  requires_op = false;
}

abbrev amount : Attributes
amount = record (literal "amount" true) { type = "int" }

-- /claim list, and /claim give with an amount
abbrev claim_children : Children
claim_children =
    child (node (literal "list" true) no_child)
      (child (node (literal "give" false) (child (node amount no_child) no_child)) no_child)

abbrev claim_command : EngineResponseCommand
claim_command = node (record (literal "claim" false) { aliases = "c" ∷ "land" ∷ [] }) claim_children

overloads_of_claim : length (build_command_overloads claim_children) ≡ 2
unfolding build_command_overloads path_overloads build_command_paths
overloads_of_claim = refl

build_command_overloads_iff_example :
    Among
      (map param_of (literal "give" false ∷ amount ∷ []))
      (build_command_overloads claim_children)
    ↔ ((path : List Attributes) × LeadsBelow claim_children path
        × (map param_of (literal "give" false ∷ amount ∷ []) ≡ map param_of path))
build_command_overloads_iff_example =
    build_command_overloads_iff claim_children (map param_of (literal "give" false ∷ amount ∷ []))

abbrev pub test_codes : CommandCodes
test_codes = record {
  permission_level_any = 0;
  param_option_collapse_enum = 1;
  arg_valid = 0x100000;
  arg_enum = 0x200000;
  arg_soft_enum = 0x4000000;
  arg_suffixed = 0x1000000;
  arg_type_int = 1;
  arg_type_float = 3;
  arg_type_value = 4;
  arg_type_target = 8;
  arg_type_string = 56;
  arg_type_raw_text = 70;
  arg_type_position = 64;
}

abbrev server_packet : AvailableCommands
server_packet = record {
  commands =
      record {
        name = "kill";
        description = "";
        permission_level = 1;
        aliases_offset = 0;
        overloads = [];
      }
      ∷ [];
  enums = record { type = "killAliases"; value_indices = 0 ∷ [] } ∷ [];
  enum_values = "c" ∷ [];
  dynamic_enums = [];
  suffixes = [];
}

abbrev custom_commands : List Command
custom_commands = commands (load_from (claim_command ∷ []) [])

-- The value "c" is there, "land" is new, and so is the enum of the aliases.
values_of_packet :
    (append_custom_commands test_codes custom_commands server_packet).enum_values
    ≡ "c" ∷ "land" ∷ "list" ∷ "give" ∷ []
unfolding append_custom_commands append_commands commands load_from register insert append_command
    process_params command_of build_command_overloads path_overloads build_command_paths
    process_overload process_param string_eq param_of value_to_param_type lookup type_value
    dynamic_enum_index enum_index handle_enum handle_suffix index_from new_command_builder
    process_aliases suffix_index value_index value_indices_of concat ℕ_discrete
values_of_packet = refl

-- ===== src/Session/Handlers/AvailableCommands.antt =====
-- session/handler_available_commands.go: the custom commands are appended to those of the server.
pub mod Codes
pub mod Growth
pub mod Indices
pub mod Aliases
pub mod Appending
use Prim.Native.Nat.{bit_or}
use gobds.Base.{
  ℕ, ◌+◌, ◌-◌, ◌%◌, ◌^◌, String, Bool, true, false, not, Option, none, some, List, [], ◌∷◌, ◌++◌,
  length, contains, ◌==◌, string_eq, keep, if◌then◌else◌,
}
use gobds.Base.Dict.{Dict, lookup, insert}
use gobds.Strings.{concat}
use gobds.Commands.{
  ParamValue, int_value, float_value, varargs, bool_value, vec3_value, sub_command, other_value,
  string_value, enum_value, ParamInfo, Command,
}
use gobds.Session.State.{Session}
use gobds.Session.Handlers.AvailableCommands.Codes.{CommandCodes}

-- disabledCommands
abbrev pub disabled_commands : List String
disabled_commands = "me" ∷ "tell" ∷ "w" ∷ "msg" ∷ []

-- protocol.CommandEnum
pub record CommandEnum : Type 0 where
  pub type : String
  pub value_indices : List ℕ

-- protocol.DynamicEnum
pub record DynamicEnum : Type 0 where
  pub type : String
  pub values : List String

-- protocol.CommandParameter
pub record CommandParameter : Type 0 where
  pub name : String
  pub type : ℕ
  pub optional : Bool
  pub options : ℕ

-- protocol.Command
pub record PacketCommand : Type 0 where
  pub name : String
  pub description : String
  pub permission_level : ℕ
  pub aliases_offset : ℕ
  pub overloads : List (List CommandParameter)

-- packet.AvailableCommands
pub record AvailableCommands : Type 0 where
  pub commands : List PacketCommand
  pub enums : List CommandEnum
  pub enum_values : List String
  pub dynamic_enums : List DynamicEnum
  pub suffixes : List String

-- commandBuilder
pub record CommandBuilder : Type 0 where
  pub pkt : AvailableCommands
  pub enum_indices : Dict String ℕ
  pub enum_value_indices : Dict String ℕ
  pub dynamic_enum_indices : Dict String ℕ
  pub suffix_indices : Dict String ℕ

-- uint32(n)
abbrev pub index32 : ℕ → ℕ
index32 n = n % 2 ^ 32

-- A loop of newCommandBuilder: from i on, each item's key has its index, the last one if it comes twice.
unfoldable pub index_from : {A : Type 0} → (A → String) → ℕ → List A → Dict String ℕ → Dict String ℕ
index_from key i [] m = m
index_from key i (x ∷ xs) m = index_from key (i + 1) xs (insert (key x) (index32 i) m)

unfoldable pub new_command_builder : AvailableCommands → CommandBuilder
new_command_builder pkt = record {
  pkt = pkt;
  enum_indices = index_from (λ e. e.type) 0 pkt.enums [];
  enum_value_indices = index_from (λ v. v) 0 pkt.enum_values [];
  dynamic_enum_indices = index_from (λ e. e.type) 0 pkt.dynamic_enums [];
  suffix_indices = index_from (λ s. s) 0 pkt.suffixes [];
}

-- The index of a value, which is appended if it has none.
unfoldable pub value_index : String → CommandBuilder → CommandBuilder × ℕ
value_index v b = elim (lookup v b.enum_value_indices) [
  | some i ↦ (b, i)
  | none ↦
      let i = index32 (length b.pkt.enum_values) in
      (
        record b {
          enum_value_indices = insert v i b.enum_value_indices;
          pkt = record (b.pkt) { enum_values = b.pkt.enum_values ++ v ∷ [] };
        },
        i,
      )
]

-- The loop over the values of an enum.
unfoldable pub value_indices_of : List String → CommandBuilder → CommandBuilder × List ℕ
value_indices_of [] b = (b, [])
value_indices_of (v ∷ vs) b =
    let (b', i) = value_index v b in let (b'', is) = value_indices_of vs b' in (b'', i ∷ is)

-- The index of an enum, which is appended with its values if it has none.
unfoldable pub enum_index : String → List String → CommandBuilder → CommandBuilder × ℕ
enum_index type values b = elim (lookup type b.enum_indices) [
  | some i ↦ (b, i)
  | none ↦
      let i = index32 (length b.pkt.enums) in
      let (b', is) =
        value_indices_of values (record b { enum_indices = insert type i b.enum_indices }) in
      (
        record b' {
          pkt = record (b'.pkt) {
            enums = b'.pkt.enums ++ record { type = type; value_indices = is } ∷ [];
          };
        },
        i,
      )
]

-- math.MaxUint32
abbrev pub no_aliases : ℕ
no_aliases = 2 ^ 32 - 1

unfoldable pub process_aliases : Command → CommandBuilder → CommandBuilder × ℕ
process_aliases c b = elim c.aliases [
  | [] ↦ (b, no_aliases)
  | a ∷ as' ↦ enum_index (concat c.name "Aliases") c.aliases b
]

unfoldable pub dynamic_enum_index : String → List String → CommandBuilder → CommandBuilder × ℕ
dynamic_enum_index type values b = elim (lookup type b.dynamic_enum_indices) [
  | some i ↦ (b, i)
  | none ↦
      let i = index32 (length b.pkt.dynamic_enums) in
      (
        record b {
          dynamic_enum_indices = insert type i b.dynamic_enum_indices;
          pkt = record (b.pkt) {
            dynamic_enums = b.pkt.dynamic_enums ++ record { type = type; values = values } ∷ [];
          };
        },
        i,
      )
]

-- commandEnum
pub record EnumDef : Type 0 where
  pub type : String
  pub options : List String
  pub dynamic : Bool

abbrev no_enum : EnumDef
no_enum = record { type = ""; options = []; dynamic = false }

abbrev pub or_with : ℕ → CommandBuilder × ℕ → CommandBuilder × ℕ
or_with t (b, i) = (b, bit_or t i)

unfoldable pub handle_enum : CommandCodes → ℕ → EnumDef → CommandBuilder → CommandBuilder × ℕ
handle_enum codes t def b =
    if not def.dynamic
    then or_with (bit_or t codes.arg_enum) (enum_index def.type def.options b)
    else or_with (bit_or t codes.arg_soft_enum) (dynamic_enum_index def.type def.options b)

unfoldable pub suffix_index : String → CommandBuilder → CommandBuilder × ℕ
suffix_index suffix b = elim (lookup suffix b.suffix_indices) [
  | some i ↦ (b, i)
  | none ↦
      let i = index32 (length b.pkt.suffixes) in
      (
        record b {
          suffix_indices = insert suffix i b.suffix_indices;
          pkt = record (b.pkt) { suffixes = b.pkt.suffixes ++ suffix ∷ [] };
        },
        i,
      )
]

unfoldable pub handle_suffix : CommandCodes → ℕ → String → CommandBuilder → CommandBuilder × ℕ
handle_suffix codes t suffix b = or_with (bit_or t codes.arg_suffixed) (suffix_index suffix b)

unfoldable pub value_to_param_type : CommandCodes → String → ParamValue → ℕ × EnumDef
value_to_param_type codes name int_value = (codes.arg_type_int, no_enum)
value_to_param_type codes name float_value = (codes.arg_type_float, no_enum)
value_to_param_type codes name varargs = (codes.arg_type_raw_text, no_enum)
value_to_param_type codes name bool_value =
    (0, record { type = "bool"; options = "true" ∷ "false" ∷ []; dynamic = false })
value_to_param_type codes name vec3_value = (codes.arg_type_position, no_enum)
value_to_param_type codes name sub_command =
    (0, record { type = concat "SubCommand" name; options = name ∷ []; dynamic = false })
value_to_param_type codes name other_value = (codes.arg_type_value, no_enum)
value_to_param_type codes name (string_value v) =
    (if v == "target" then codes.arg_type_target else codes.arg_type_string, no_enum)
value_to_param_type codes name (enum_value type options) =
    (0, record { type = type; options = options; dynamic = true })

abbrev option_bits : CommandCodes → ParamValue → ℕ
option_bits codes bool_value = codes.param_option_collapse_enum
option_bits codes v = 0

abbrev pub with_enum : CommandCodes → ℕ → EnumDef → CommandBuilder → CommandBuilder × ℕ
with_enum codes t def b = if not (def.type == "") then handle_enum codes t def b else (b, t)

abbrev pub with_suffix : CommandCodes → String → CommandBuilder × ℕ → CommandBuilder × ℕ
with_suffix codes suffix (b, t) =
    if not (suffix == "") then handle_suffix codes t suffix b else (b, t)

-- The body of the inner loop of processParams.
unfoldable pub process_param :
    CommandCodes → ParamInfo → CommandBuilder → CommandBuilder × CommandParameter
process_param codes p b =
    let (t, def) = value_to_param_type codes p.name p.value in
    let (b', t') = with_suffix codes p.suffix (with_enum codes (bit_or t codes.arg_valid) def b) in
    (
      b',
      record {
        name = p.name;
        type = t';
        optional = p.optional;
        options = option_bits codes p.value;
      },
    )

unfoldable pub process_overload :
    CommandCodes → List ParamInfo → CommandBuilder → CommandBuilder × List CommandParameter
process_overload codes [] b = (b, [])
process_overload codes (p ∷ ps) b =
    let (b', q) = process_param codes p b in
    let (b'', qs) = process_overload codes ps b' in (b'', q ∷ qs)

unfoldable pub process_params :
    CommandCodes
    → List (List ParamInfo)
    → CommandBuilder
    → CommandBuilder × List (List CommandParameter)
process_params codes [] b = (b, [])
process_params codes (o ∷ os) b =
    let (b', q) = process_overload codes o b in
    let (b'', qs) = process_params codes os b' in (b'', q ∷ qs)

-- The body of the loop of appendCustomCommands.
unfoldable pub append_command : CommandCodes → Command → CommandBuilder → CommandBuilder
append_command codes c b =
    let (b', aliases_index) = process_aliases c b in
    let (b'', overloads) = process_params codes c.params b' in
    record b'' {
      pkt = record (b''.pkt) {
        commands =
            b''.pkt.commands
            ++ record {
              name = c.name;
              description = c.description;
              permission_level = codes.permission_level_any;
              aliases_offset = aliases_index;
              overloads = overloads;
            }
              ∷ [];
      };
    }

unfoldable pub append_commands : CommandCodes → List Command → CommandBuilder → CommandBuilder
append_commands codes [] b = b
append_commands codes (c ∷ cs) b = append_commands codes cs (append_command codes c b)

unfoldable pub append_custom_commands :
    CommandCodes → List Command → AvailableCommands → AvailableCommands
append_custom_commands codes custom pkt =
    (append_commands codes custom (new_command_builder pkt)).pkt

abbrev names_of : List PacketCommand → List String
names_of [] = []
names_of (c ∷ cs) = c.name ∷ names_of cs

-- Handle: the cache has the names of the server's commands that are not disabled.
unfoldable pub handle_available_commands :
    CommandCodes → List Command → AvailableCommands → Session → Session × AvailableCommands
handle_available_commands codes custom pkt s = (
  record s {
    command_cache = keep (λ n. not (contains disabled_commands n)) (names_of pkt.commands);
  },
  append_custom_commands codes custom pkt,
)

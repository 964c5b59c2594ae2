-- ===== src/Commands.antt =====
-- gobds/cmd: the custom commands that the server's scripts define, and their registration. The order in
-- which Go iterates a map is that of a list.
pub mod Paths
use gobds.Base.{
  ℕ, String, Bool, true, false, Option, none, some, List, [], ◌∷◌, ◌++◌, map, length, ◌==◌, nat_eq,
  string_eq, ◌||◌, if◌then◌else◌,
}
use gobds.Base.Dict.{Dict, insert}
use gobds.Strings.{concat}

-- The value of a parameter, which is of type `any`: a zero value that stands for a type, or an enum
-- with its type and options.
pub data ParamValue : Type 0 where
  int_value float_value varargs bool_value vec3_value sub_command other_value : ParamValue
  string_value : String → ParamValue
  enum_value : String → List String → ParamValue

pub record ParamInfo : Type 0 where
  pub name : String
  pub value : ParamValue
  pub optional : Bool
  pub suffix : String

pub record Command : Type 0 where
  pub name : String
  pub description : String
  pub aliases : List String
  pub params : List (List ParamInfo)
  pub requires_op : Bool

-- The fields of EngineResponseCommand that are read, without its children.
pub record Attributes : Type 0 where
  pub name : String
  pub description : String
  pub aliases : List String
  pub type : String
  pub allowed_type_values : List String
  pub can_be_called : Bool
  pub requires_op : Bool

mutual
  pub data EngineResponseCommand : Type 0 where
    node : Attributes → Children → EngineResponseCommand

  pub data Children : Type 0 where
    no_child : Children
    child : EngineResponseCommand → Children → Children

unfoldable mutual
  -- A callable node is a path, and so is each path of a child, with the node before it.
  pub build_command_paths : EngineResponseCommand → List (List Attributes)
  build_command_paths (node a cs) =
      let below = paths_below a cs in if a.can_be_called then (a ∷ []) ∷ below else below

  pub paths_below : Attributes → Children → List (List Attributes)
  paths_below a no_child = []
  paths_below a (child c cs) = map (λ path. a ∷ path) (build_command_paths c) ++ paths_below a cs

-- The switch over the type of a node.
unfoldable pub type_value : String → ParamValue
type_value t =
    if t == "literal"
    then sub_command
    else if t == "string" || t == "playerName" || t == "duration"
    then string_value ""
    else if t == "int"
    then int_value
    else if t == "float"
    then float_value
    else if t == "boolean"
    then bool_value
    else if t == "location"
    then vec3_value
    else if t == "player" || t == "target"
    then string_value "target"
    else string_value ""

unfoldable pub param_of : Attributes → ParamInfo
param_of a = record {
  name = a.name;
  value =
      if length a.allowed_type_values == 0
      then type_value a.type
      else enum_value (concat a.name "Enum") a.allowed_type_values;
  optional = false;
  suffix = "";
}

abbrev add_overload : List ParamInfo → List (List ParamInfo) → List (List ParamInfo)
add_overload [] rest = rest
add_overload (p ∷ ps) rest = (p ∷ ps) ∷ rest

-- The loop over the paths of one child.
unfoldable pub path_overloads : List (List Attributes) → List (List ParamInfo)
path_overloads [] = []
path_overloads (path ∷ paths) = add_overload (map param_of path) (path_overloads paths)

unfoldable pub build_command_overloads : Children → List (List ParamInfo)
build_command_overloads no_child = []
build_command_overloads (child c cs) =
    path_overloads (build_command_paths c) ++ build_command_overloads cs

-- The registry, commands.
abbrev pub Registry : Type 0
Registry = Dict String Command

unfoldable pub register : Command → Registry → Registry
register c r = insert c.name c r

-- A callable root adds an empty overload, and so does one without any.
abbrev root_overloads : Bool → List (List ParamInfo) → List (List ParamInfo)
root_overloads true overloads = [] ∷ overloads
root_overloads false [] = [] ∷ []
root_overloads false (o ∷ os) = o ∷ os

abbrev overloads_of : Bool → Children → List (List ParamInfo)
overloads_of can_be_called no_child = []
overloads_of can_be_called (child c cs) =
    root_overloads can_be_called (build_command_overloads (child c cs))

unfoldable pub command_of : EngineResponseCommand → Command
command_of (node a cs) = record {
  name = a.name;
  description = a.description;
  aliases = a.aliases;
  params = overloads_of a.can_be_called cs;
  requires_op = a.requires_op;
}

unfoldable pub load_from : List EngineResponseCommand → Registry → Registry
load_from [] r = r
load_from (c ∷ cs) r = load_from cs (register (command_of c) r)

abbrev values_of : Registry → List Command
values_of [] = []
values_of ((name, c) ∷ r) = c ∷ values_of r

-- Commands(), in the order in which a client iterates the map.
unfoldable pub commands : Registry → List Command
commands r = values_of r

-- ===== src/Forms.antt =====
-- gobds/util/formutil: the form of a menu. The JSON library is an argument.
use gobds.Base.{String, not, Option, none, some, List, ◌==◌, string_eq, if◌then◌else◌}

pub record ButtonImage : Type 0 where
  pub type : String
  pub data' : String

pub record ButtonElement : Type 0 where
  pub type : String
  pub text : String
  pub image : ButtonImage

pub record MenuForm : Type 0 where
  pub type : String
  pub title : String
  pub content : String
  pub elements : List ButtonElement

-- encoding/json for this type: Unmarshal and Marshal, which may fail.
pub record FormCodec : Type 0 where
  pub unmarshal : String → Option MenuForm
  pub marshal : MenuForm → Option String

unfoldable pub set_image_url : String → ButtonElement → ButtonElement
set_image_url url b = record b { image = record { type = "url"; data' = url } }

abbrev if_menu : Option MenuForm → Option MenuForm
if_menu none = none
if_menu (some form) = if not (form.type == "form") then none else some form

-- ParseMenuForm; its caller takes an error and another kind of form for the same.
unfoldable pub parse_menu_form : FormCodec → String → Option MenuForm
parse_menu_form codec data' = if_menu (codec.unmarshal data')

-- ===== src/Session/Handlers/Actors/Naming.antt =====
-- translateName and entityTranslatedName of session/handler_add_actor.go.
use gobds.Base.{string_eq, String, Option, none, some, List, [], ◌∷◌, if◌then◌else◌}
use gobds.Base.Dict.{lookup}
use gobds.Strings.{concat, cut, has_prefix, join, split, trim_space}
use gobds.Translations.{Texts, MappedTranslations, translation_for}

abbrev pub nick_identifier : String
nick_identifier = "§l§n§r"

abbrev texts_or : Option Texts → Option Texts → Texts
texts_or (some t) other = t
texts_or none (some t) = t
texts_or none none = []

-- strings.Replace(entityType, "pokemon:", "pokeb:", 1)
abbrev translation_key : String → String
translation_key entity_type = elim (cut entity_type "pokemon:") [
  | none ↦ entity_type
  | some (before, after) ↦ concat before (concat "pokeb:" after)
]

unfoldable pub entity_translated_name : MappedTranslations → String → String → String
entity_translated_name translations locale entity_type =
    let t = texts_or (translation_for locale translations) (translation_for "en_US" translations) in
    elim (lookup (concat "item." (translation_key entity_type)) t) [
      | none ↦ concat "name not found for " entity_type
      | some name ↦ name
    ]

-- The part of a text up to the next mark, or all of it.
abbrev until_mark : String → String → String
until_mark mark s = elim (cut s mark) [ none ↦ s | some (before, after) ↦ before ]

-- The first line of the name, with the level that it shows.
unfoldable pub name_line : String → String → String
name_line translated line = elim (cut line "§eLvl") [
  | none ↦ concat "§l" translated
  | some (before, after) ↦
      concat "§l" (concat translated (concat " §eLvl" (until_mark "§eLvl" after)))
]

abbrev rename_lines : String → List String → List String
rename_lines translated [] = concat "§l" translated ∷ []
rename_lines translated (line ∷ lines) = name_line translated line ∷ lines

unfoldable pub translate_name : MappedTranslations → String → String → String → String
translate_name translations locale name entity_type =
    if has_prefix name nick_identifier
    then name
    else join "\n" (
        rename_lines (entity_translated_name translations locale entity_type)
          (split b'\n' (trim_space name)))

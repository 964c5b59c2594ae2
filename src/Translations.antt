-- ===== src/Translations.antt =====
-- gobds/util/translator: the texts of the resource packs, by language and key, and the parser of .lang
-- files. What a pack gives for a path and the JSON list of its languages are arguments.
pub mod Trimming
pub mod Printing
use gobds.Base.{
  ℕ, ◌*◌, ◌^◌, String, ◌||◌, Option, none, some, List, [], ◌∷◌, ◌==◌, string_eq, leb, if◌then◌else◌,
}
use gobds.Base.Dict.{Dict, lookup, insert}
use gobds.Base.Result.{Result, ok, err, ◌>>=◌}
use gobds.Strings.{trim_space, split, cut, has_prefix, byte_length}

-- MappedTranslations
abbrev pub Texts : Type 0
Texts = Dict String String

abbrev pub MappedTranslations : Type 0
MappedTranslations = Dict String Texts

unfoldable pub translation_for : String → MappedTranslations → Option Texts
translation_for lang m = lookup lang m

unfoldable pub set_translation_for : String → Texts → MappedTranslations → MappedTranslations
set_translation_for lang t m = insert lang t m

pub data TranslationError : Type 0 where
  languages_failed : TranslationError
  unreadable : String → TranslationError
  bad_line : String → TranslationError
  scan_failed : TranslationError

-- bufio.MaxScanTokenSize
abbrev max_scan_token_size : ℕ
max_scan_token_size = 64 * 2 ^ 10

-- The body of the loop for a line that is not too long.
unfoldable pub add_line : String → Texts → Result TranslationError Texts
add_line raw texts =
    let line = trim_space raw in
    if line == "" || has_prefix line "#" then ok texts else elim (cut line "=") [
      | none ↦ err (bad_line line)
      | some (key, value) ↦ ok (insert (trim_space key) (trim_space value) texts)
    ]

-- The loop of TranslationMapFor, over the lines of a file. A line that does not fit the scanner's
-- buffer ends it.
unfoldable pub scan_lines : List String → Texts → Result TranslationError Texts
scan_lines [] texts = ok texts
scan_lines (line ∷ rest) texts =
    let later = add_line line texts >>= scan_lines rest in
    if leb max_scan_token_size (byte_length line) then err scan_failed else later

abbrev scanned : Option String → String → Result TranslationError Texts
scanned none language = err (unreadable language)
scanned (some raw) language = scan_lines (split b'\n' raw) []

-- TranslationMapFor, with what the pack has under a path.
unfoldable pub translation_map_for :
    (String → Option String) → String → Result TranslationError Texts
translation_map_for read language = scanned (read language) language

-- The loop of Setup: languages before one that fails stay set.
unfoldable pub setup_languages :
    (String → Option String)
    → List String
    → MappedTranslations
    → MappedTranslations × Result TranslationError (Unit {0})
setup_languages read [] m = (m, ok tt)
setup_languages read (l ∷ ls) m = elim (translation_map_for read l) [
  | err e ↦ (m, err e)
  | ok texts ↦ setup_languages read ls (set_translation_for l texts m)
]

-- Setup, with the languages that SupportedLanguages finds.
unfoldable pub setup :
    Option (List String)
    → (String → Option String)
    → MappedTranslations
    → MappedTranslations × Result TranslationError (Unit {0})
setup none read m = (m, err languages_failed)
setup (some languages) read m = setup_languages read languages m

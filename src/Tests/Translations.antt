-- ===== src/Tests/Translations.antt =====
-- A file of translations, for the tests of gobds/util/translator.
use gobds.Base.{◌≡◌, refl, String, Option, some, List, [], ◌∷◌, All, arith, ℕ_discrete}
use gobds.Base.Result.{ok}
use gobds.Strings.{
  is_space, trim_left, trim_right, trim_space, split, cut, cut_prefix, concat, byte_length,
}
use gobds.Translations.{translation_map_for}
use gobds.Translations.Printing.{
  Entry, IsPlain, line_of, print, texts_of, translation_map_for-print,
}

abbrev entries : List Entry
entries = ("item.a", "An egg") ∷ ("item.b", "x = y") ∷ []

entries-IsPlain : All IsPlain entries
unfolding is_space trim_left trim_right trim_space split cut cut_prefix concat byte_length line_of
    ℕ_discrete
entries-IsPlain =
    ((refl, refl, refl, refl, refl, omega arith), ((refl, refl, refl, refl, refl, omega arith), tt))

abbrev read : String → Option String
read language = some (print entries)

translation_map_for-print_example : translation_map_for read "en_US" ≡ ok (texts_of entries [])
translation_map_for-print_example =
    translation_map_for-print read "en_US" entries refl entries-IsPlain

-- ===== src/Translations/Printing.antt =====
-- The parser of .lang files on texts that are printed line by line (util/translator/lang.go).
use gobds.Base.{
  ◌<◌, ◌≡◌, refl, sym, ap, ◌∙◌, String, true, false, Option, none, some, List, [], ◌∷◌, ◌==◌,
  string_eq, nat_eq, leb, All, arith,
}
use gobds.Base.Dict.{insert}
use gobds.Base.Result.{ok}
use gobds.Strings.{
  is_empty, trim_left, trim_right, trim_space, split, cut, cut_prefix, has_prefix, concat,
  byte_length,
}
use gobds.Translations.{Texts, add_line, scan_lines, translation_map_for}
use gobds.Translations.Trimming.{
  begins, concat-not-empty, trim_right-concat, cut-concat, split-concat, trim_right-of-trim_space,
  separator_stays, trim_space_lem, trim_left-concat, separator_there, no_comment, not_empty, found,
}

-- A key with its text, on a line of a file.
abbrev pub Entry : Type 0
Entry = String × String

unfoldable pub line_of : Entry → String
line_of (key, value) = concat key (concat "=" value)

unfoldable pub print : List Entry → String
print [] = ""
print (e ∷ es) = concat (line_of e) (concat "\n" (print es))

unfoldable pub texts_of : List Entry → Texts → Texts
texts_of [] texts = texts
texts_of ((key, value) ∷ es) texts = texts_of es (insert key value texts)

-- Key and value have no space at their ends and no newline; the key has no "=", and it does not begin a
-- comment; the line fits the scanner's buffer.
abbrev pub IsPlain : Entry → Type 0
IsPlain (key, value) =
    (begins key ≡ true)
    × (trim_space key ≡ key)
    × (trim_space value ≡ value)
    × (cut key "=" ≡ none)
    × (split b'\n' (line_of (key, value)) ≡ line_of (key, value) ∷ [])
    × (byte_length (line_of (key, value)) < 65536)

line_of_lem : (key value : String) → line_of (key, value) ≡ concat key (concat "=" value)
unfolding line_of
line_of_lem key value = refl

-- The line of an entry, as the parser trims it.
trimmed_line :
    (key value : String)
    → begins key ≡ true
    → trim_space value ≡ value
    → trim_space (line_of (key, value)) ≡ line_of (key, value)
trimmed_line key value h v =
    let e = line_of_lem key value in
    ap trim_space e
    ∙ trim_space_lem (concat key (concat "=" value))
    ∙ ap trim_right (trim_left-concat key (concat "=" value) h)
    ∙ trim_right-concat key (concat "=" value)
        (separator_stays value (trim_right-of-trim_space value v)) (separator_there value)
    ∙ sym e

-- What the parser does with a line once it is trimmed.
add_line_lem :
    (raw line key value : String) (texts : Texts)
    → trim_space raw ≡ line
    → (line == "") ≡ false
    → has_prefix line "#" ≡ false
    → cut line "=" ≡ some (key, value)
    → add_line raw texts ≡ ok (insert (trim_space key) (trim_space value) texts)
unfolding add_line
add_line_lem raw line key value texts e f g h = rw (e, f, g, h, add_line) refl

add_line-line_of :
    (e : Entry) (texts : Texts) → IsPlain e → add_line (line_of e) texts ≡ ok (insert e.0 e.1 texts)
add_line-line_of (key, value) texts (starts, k, v, no_cut, one, short) =
    let e = line_of_lem key value in
    add_line_lem (line_of (key, value)) (line_of (key, value)) key value texts
      (trimmed_line key value starts v)
      (not_empty (line_of (key, value))
        (ap is_empty e ∙ concat-not-empty key (concat "=" value) (separator_there value)))
      (ap found (ap (λ s. cut_prefix s "#") e ∙ no_comment key (concat "=" value) starts))
      (ap (λ s. cut s "=") e ∙ cut-concat key value no_cut)
    ∙ ap (λ s. ok (insert s (trim_space value) texts)) k
    ∙ ap (λ s. ok (insert key s texts)) v

scan_cons :
    (line : String) (rest : List String) (texts later : Texts)
    → byte_length line < 65536
    → add_line line texts ≡ ok later
    → scan_lines (line ∷ rest) texts ≡ scan_lines rest later
unfolding scan_lines
scan_cons line rest texts later short e =
    let f : leb 65536 (byte_length line) ≡ false = ground arith in rw (e, f, scan_lines) refl

scan_end : (texts : Texts) → scan_lines (split b'\n' "") texts ≡ ok texts
unfolding scan_lines split add_line trim_space trim_left trim_right byte_length string_eq
scan_end texts = refl

scan-print :
    (es : List Entry) (texts : Texts)
    → All IsPlain es
    → scan_lines (split b'\n' (print es)) texts ≡ ok (texts_of es texts)
unfolding print texts_of
scan-print [] texts h = scan_end texts
scan-print (e ∷ es) texts (plain, rest) =
    let later = insert e.0 e.1 texts in
    let (starts, k, v, no_cut, one, short) = plain in
    ap (λ ls. scan_lines ls texts) (split-concat (line_of e) (print es) one)
    ∙ scan_cons (line_of e) (split b'\n' (print es)) texts later short
        (add_line-line_of e texts plain)
    ∙ scan-print es later rest

-- A file in which each line is a key, "=" and its text gives those keys their texts, in the order of
-- the lines. The keys and texts have no space at their ends and no newline, a key is not empty, has no
-- "=" and does not begin with "#", and no line is longer than the scanner's buffer.
pub translation_map_for-print :
    (read : String → Option String) (language : String) (es : List Entry)
    → read language ≡ some (print es)
    → All IsPlain es
    → translation_map_for read language ≡ ok (texts_of es [])
unfolding translation_map_for
translation_map_for-print read language es e plain =
    rw (e, translation_map_for) (scan-print es [] plain)

-- ===== src/Translations/Trimming.antt =====
-- Trimming, cutting and splitting of texts that are put together (for util/translator/lang.go).
use Prim.Native.Char.{Char, code}
use gobds.Base.{
  ◌≡◌, refl, sym, ap, ◌∙◌, String, Bool, true, false, not, ◌&&◌, Option, none, some, List, [], ◌∷◌,
  ◌==◌, string_eq, nat_eq, Bool-cases, Option-cases, inl, inr, ℕ_discrete, arith,
}
use gobds.Strings.{
  is_space, is_empty, trim_left, trim_right, trim_space, split, cons_first, cut, cut_prefix, concat,
}

-- The text begins with a character that is no space and no "#".
abbrev pub begins : String → Bool
begins String.[] = false
begins (String.◌∷◌ c s) = not (is_space c) && not (code c == b'#')

pub concat-not-empty : (s t : String) → is_empty t ≡ false → is_empty (concat s t) ≡ false
unfolding concat
concat-not-empty String.[] t h = h
concat-not-empty (String.◌∷◌ c s) t h = refl

trim_right-cons :
    (c : Char) (s : String)
    → (is_empty (trim_right s) && is_space c) ≡ false
    → trim_right (String.◌∷◌ c s) ≡ String.◌∷◌ c (trim_right s)
unfolding trim_right
trim_right-cons c s h = rw (h, trim_right) refl

pub trim_right-concat :
    (s t : String) → trim_right t ≡ t → is_empty t ≡ false → trim_right (concat s t) ≡ concat s t
unfolding concat
trim_right-concat String.[] t h k = h
trim_right-concat (String.◌∷◌ c s) t h k =
    let ih = trim_right-concat s t h k in
    let n : is_empty (trim_right (concat s t)) ≡ false = ap is_empty ih ∙ concat-not-empty s t k in
    trim_right-cons c (concat s t) (ground arith) ∙ ap (String.◌∷◌ c) ih

-- A text whose first character is none of the separator is cut where the rest is.
cut_here :
    (c : Char) (s : String)
    → (code c == b'=') ≡ true
    → cut (String.◌∷◌ c s) "=" ≡ some (String.[], s)
unfolding cut cut_prefix
cut_here c s e = rw (e, cut, cut_prefix) refl

abbrev prepended : Char → Option (String × String) → Option (String × String)
prepended c o = elim o [ none ↦ none | some (before, after) ↦ some (String.◌∷◌ c before, after) ]

cut_later :
    (c : Char) (s : String)
    → (code c == b'=') ≡ false
    → cut (String.◌∷◌ c s) "=" ≡ prepended c (cut s "=")
unfolding cut cut_prefix
cut_later c s e = rw (e, cut, cut_prefix) refl

cut_cons :
    (c : Char) (s : String)
    → cut (String.◌∷◌ c s) "=" ≡ none
    → ((code c == b'=') ≡ false) × (cut s "=" ≡ none)
cut_cons c s h = elim (Bool-cases (code c == b'=')) [
  | inl e ↦ let k = sym (cut_here c s e) ∙ h in absurd (cc)
  | inr e ↦ elim (Option-cases (cut s "=")) [
    | inl f ↦ (e, f)
    | inr ((before, after), f) ↦
        let k = sym (ap (prepended c) f) ∙ sym (cut_later c s e) ∙ h in absurd (cc)
  ]
]

pub cut-concat :
    (key value : String)
    → cut key "=" ≡ none
    → cut (concat key (concat "=" value)) "=" ≡ some (key, value)
unfolding concat ℕ_discrete
cut-concat String.[] value h = cut_here _ value refl
cut-concat (String.◌∷◌ c key) value h =
    let (e, f) = cut_cons c key h in
    let ih = cut-concat key value f in
    cut_later c (concat key (concat "=" value)) e ∙ ap (prepended c) ih

-- A text that is no separator and has none is split as the rest is.
split_later :
    (c : Char) (s : String)
    → (code c == b'\n') ≡ false
    → split b'\n' (String.◌∷◌ c s) ≡ cons_first c (split b'\n' s)
unfolding split
split_later c s e = rw (e, split) refl

split_here :
    (c : Char) (s : String)
    → (code c == b'\n') ≡ true
    → split b'\n' (String.◌∷◌ c s) ≡ String.[] ∷ split b'\n' s
unfolding split
split_here c s e = rw (e, split) refl

abbrev starts_empty : List String → Bool
starts_empty [] = true
starts_empty (p ∷ ps) = is_empty p

abbrev tail_of : String → String
tail_of String.[] = String.[]
tail_of (String.◌∷◌ c s) = s

abbrev first_tail : List String → List String
first_tail [] = []
first_tail (p ∷ ps) = tail_of p ∷ ps

split-not-nil : (s : String) → (p : String) × (ps : List String) × (split b'\n' s ≡ p ∷ ps)
unfolding split
split-not-nil String.[] = (String.[], [], refl)
split-not-nil (String.◌∷◌ c s) = elim (Bool-cases (code c == b'\n')) [
  | inl e ↦ (String.[], split b'\n' s, split_here c s e)
  | inr e ↦
      let (p, ps, f) = split-not-nil s in
      (String.◌∷◌ c p, ps, split_later c s e ∙ ap (cons_first c) f)
]

split_single :
    (c : Char) (s : String)
    → split b'\n' (String.◌∷◌ c s) ≡ String.◌∷◌ c s ∷ []
    → ((code c == b'\n') ≡ false) × (split b'\n' s ≡ s ∷ [])
split_single c s h = elim (Bool-cases (code c == b'\n')) [
  | inl e ↦
      let k = sym (split_here c s e) ∙ h in let n : true ≡ false = ap starts_empty k in absurd (cc)
  | inr e ↦
      let (p, ps, f) = split-not-nil s in
      let k = ap (cons_first c) (sym f) ∙ sym (split_later c s e) ∙ h in (e, f ∙ ap first_tail k)
]

pub split-concat :
    (line rest : String)
    → split b'\n' line ≡ line ∷ []
    → split b'\n' (concat line (concat "\n" rest)) ≡ line ∷ split b'\n' rest
unfolding concat ℕ_discrete
split-concat String.[] rest h = split_here _ rest refl
split-concat (String.◌∷◌ c line) rest h =
    let (e, f) = split_single c line h in
    split_later c (concat line (concat "\n" rest)) e ∙ ap (cons_first c) (split-concat line rest f)

trim_right-trim_right : (s : String) → trim_right (trim_right s) ≡ trim_right s
unfolding trim_right
trim_right-trim_right String.[] = refl
trim_right-trim_right (String.◌∷◌ c s) =
    let ih = trim_right-trim_right s in
    elim (Bool-cases (is_empty (trim_right s) && is_space c)) [
      | inl e ↦ rw (e, trim_right) refl
      | inr e ↦
          let k = trim_right-cons c s e in
          let l : (is_empty (trim_right (trim_right s)) && is_space c) ≡ false =
            ap (λ t. is_empty t && is_space c) ih ∙ e in
          ap trim_right k ∙ trim_right-cons c (trim_right s) l ∙ ap (String.◌∷◌ c) ih ∙ sym k
    ]

pub trim_right-of-trim_space : (s : String) → trim_space s ≡ s → trim_right s ≡ s
unfolding trim_space
trim_right-of-trim_space s h = ap trim_right (sym h) ∙ trim_right-trim_right (trim_left s) ∙ h

trim_left-cons :
    (c : Char) (s : String) → is_space c ≡ false → trim_left (String.◌∷◌ c s) ≡ String.◌∷◌ c s
unfolding trim_left
trim_left-cons c s h = rw (h, trim_left) refl

pub separator_stays :
    (value : String) → trim_right value ≡ value → trim_right (concat "=" value) ≡ concat "=" value
unfolding concat is_space ℕ_discrete
separator_stays value h = trim_right-cons _ value (ground arith) ∙ ap (concat "=") h

pub trim_space_lem : (s : String) → trim_space s ≡ trim_right (trim_left s)
unfolding trim_space
trim_space_lem s = refl

pub trim_left-concat : (s t : String) → begins s ≡ true → trim_left (concat s t) ≡ concat s t
unfolding concat
trim_left-concat String.[] t h = absurd (cc)
trim_left-concat (String.◌∷◌ c s) t h = trim_left-cons c (concat s t) (ground arith)

pub separator_there : (value : String) → is_empty (concat "=" value) ≡ false
unfolding concat
separator_there value = refl

no_hash :
    (c : Char) (s : String) → (code c == b'#') ≡ false → cut_prefix (String.◌∷◌ c s) "#" ≡ none
unfolding cut_prefix
no_hash c s e = rw (e, cut_prefix) refl

pub no_comment : (s t : String) → begins s ≡ true → cut_prefix (concat s t) "#" ≡ none
unfolding concat
no_comment String.[] t h = absurd (cc)
no_comment (String.◌∷◌ c s) t h = no_hash c (concat s t) (ground arith)

pub not_empty : (s : String) → is_empty s ≡ false → (s == "") ≡ false
not_empty s h = elim (Bool-cases (s == "")) [
  | inl e ↦ let k : s ≡ "" = ground arith in let l = ap is_empty k in absurd (cc)
  | inr e ↦ e
]

abbrev pub found : Option String → Bool
found o = elim o [ none ↦ false | some rest ↦ true ]

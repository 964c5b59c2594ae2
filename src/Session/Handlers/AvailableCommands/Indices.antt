-- ===== src/Session/Handlers/AvailableCommands/Indices.antt =====
-- The maps of the builder tell where things stand in its packet
-- (session/handler_available_commands.go).
use mathlib.Core.List.{append_assoc}
use gobds.Base.{
  ℕ, ◌+◌, ◌^◌, ◌≤◌, ◌<◌, ◌≡◌, ◌≢◌, All, All-append, none, refuse_text, refl, sym, ◌∙◌, subst,
  String, some, List, [], ◌∷◌, ◌++◌, length, length-append, get_elem?, get_elem?-append_left,
  get_elem?-append_end, Option-cases, Bool-cases, inl, inr, string_eq, ◌==◌, ==→≡, arith,
  if◌then◌else◌,
}
use gobds.Base.Dict.{Dict, lookup, insert, lookup-insert}
use gobds.Session.Handlers.AvailableCommands.{
  AvailableCommands, CommandEnum, CommandBuilder, index32, index_from, new_command_builder,
  value_index, value_indices_of,
}
use gobds.Session.Handlers.AvailableCommands.Growth.{
  Grows, length-Grows, Extends, Extends-of-Widens, value_indices_of-Widens,
}

-- Its enums and their values have indices in 32 bits.
abbrev pub Fits : AvailableCommands → Type 0
Fits p = (length p.enums ≤ 2 ^ 32) × (length p.enum_values ≤ 2 ^ 32)

pub Fits-Extends : (p q : AvailableCommands) → Extends p q → Fits q → Fits p
Fits-Extends p q h f = omega (
  arith,
  length-Grows p.enums q.enums h.enums,
  length-Grows p.enum_values q.enum_values h.enum_values,
)

pub index32-of-lt : (n : ℕ) → n < 2 ^ 32 → index32 n ≡ n
index32-of-lt n h = omega arith

-- A map of the indices of a list by their keys.
abbrev pub Indexes : {A : Type 0} → (A → String) → List A → Dict String ℕ → Type 0
Indexes {A} key xs m =
    (k : String) (i : ℕ) → lookup k m ≡ some i → (x : A) × (get_elem? xs i ≡ some x) × (key x ≡ k)

module _ {A : Type 0} (key : A → String) where
  Indexes-Grows :
      (xs ys : List A) (m : Dict String ℕ) → Grows xs ys → Indexes key xs m → Indexes key ys m
  Indexes-Grows xs ys m (more, e) h k i l =
      let (x, at, same) = h k i l in
      (x, subst (λ zs. get_elem? zs i ≡ some x) (sym e) (get_elem?-append_left xs more i at), same)

  -- One more item, at the end.
  pub Indexes-insert :
      (xs : List A) (x : A) (m : Dict String ℕ)
      → length xs < 2 ^ 32
      → Indexes key xs m
      → Indexes key (xs ++ x ∷ []) (insert (key x) (index32 (length xs)) m)
  Indexes-insert xs x m fits h k i l = elim (Bool-cases (k == key x)) [
    | inl same ↦
        let place : some (index32 (length xs)) ≡ some i =
          (let g : (if k == key x then some (index32 (length xs)) else lookup k m) ≡ some i =
              sym (lookup-insert k (key x) (index32 (length xs)) m) ∙ l in
            rw same at g) in
        let at : length xs ≡ i =
          sym (index32-of-lt (length xs) fits) ∙ (let q : index32 (length xs) ≡ i = cc in q) in
        (
          x,
          subst (λ j. get_elem? (xs ++ x ∷ []) j ≡ some x) at (get_elem?-append_end xs x),
          sym (==→≡ k (key x) same),
        )
    | inr other ↦
        let before : lookup k m ≡ some i =
          (let g : (if k == key x then some (index32 (length xs)) else lookup k m) ≡ some i =
              sym (lookup-insert k (key x) (index32 (length xs)) m) ∙ l in
            rw other at g) in
        Indexes-Grows xs (xs ++ x ∷ []) m (x ∷ [], refl) h k i before
  ]

  index_from-Indexes :
      (xs before : List A) (m : Dict String ℕ)
      → length before + length xs ≤ 2 ^ 32
      → Indexes key before m
      → Indexes key (before ++ xs) (index_from key (length before) xs m)
  unfolding index_from
  index_from-Indexes [] before m fits h = Indexes-Grows before (before ++ []) m ([], refl) h
  index_from-Indexes (x ∷ xs) before m fits h =
      subst
        (λ zs.
          Indexes key zs
            (index_from key (length before + 1) xs (insert (key x) (index32 (length before)) m)))
        (append_assoc before (x ∷ []) xs)
        (subst
          (λ n.
            Indexes key ((before ++ x ∷ []) ++ xs)
              (index_from key n xs (insert (key x) (index32 (length before)) m)))
          (let s : length (before ++ x ∷ []) ≡ length before + 1 =
              omega (arith, length-append {0} before (x ∷ [])) in
            s)
          (index_from-Indexes xs (before ++ x ∷ []) _
            (omega (arith, length-append {0} before (x ∷ [])))
            (Indexes-insert before x m (omega arith) h)))

-- A map that knows the key of each item of a list.
abbrev pub Covers : {A : Type 0} → (A → String) → List A → Dict String ℕ → Type 0
Covers {A} key xs m = (k : String) → lookup k m ≡ none → All (λ x. key x ≢ k) xs

module _ {A : Type 0} (key : A → String) where
  pub Covers-insert :
      (xs : List A) (x : A) (i : ℕ) (m : Dict String ℕ)
      → Covers key xs m
      → Covers key (xs ++ x ∷ []) (insert (key x) i m)
  Covers-insert xs x i m h k l =
      let g : (if k == key x then some i else lookup k m) ≡ none =
        sym (lookup-insert k (key x) i m) ∙ l in
      elim (Bool-cases (k == key x)) [
        | inl same ↦ absurd (let q : some i ≡ none = rw same at g in cc)
        | inr other ↦
            All-append (λ y. key y ≢ k) xs (x ∷ []) (h k (rw other at g))
              (λ e. refuse_text k (key x) other (sym e), tt)
      ]

  index_from-Covers :
      (xs before : List A) (n : ℕ) (m : Dict String ℕ)
      → Covers key before m
      → Covers key (before ++ xs) (index_from key n xs m)
  unfolding index_from
  index_from-Covers [] before n m h = λ k l. All-append (λ y. key y ≢ k) before [] (h k l) tt
  index_from-Covers (x ∷ xs) before n m h =
      subst (λ zs. Covers key zs (index_from key (n + 1) xs (insert (key x) (index32 n) m)))
        (append_assoc before (x ∷ []) xs)
        (index_from-Covers xs (before ++ x ∷ []) (n + 1) _ (Covers-insert before x (index32 n) m h))

abbrev pub HasValues : CommandBuilder → Type 0
HasValues b = Indexes (λ (v : String). v) b.pkt.enum_values b.enum_value_indices

abbrev pub HasEnums : CommandBuilder → Type 0
HasEnums b = Indexes (λ (e : CommandEnum). e.type) b.pkt.enums b.enum_indices

-- What the maps of a builder say is so.
pub record IsIndexed (b : CommandBuilder) : Type 0 where
  pub values : HasValues b
  pub enums : HasEnums b
  pub covered : Covers (λ (e : CommandEnum). e.type) b.pkt.enums b.enum_indices

pub new_command_builder-IsIndexed :
    (p : AvailableCommands) → Fits p → IsIndexed (new_command_builder p)
unfolding new_command_builder lookup
new_command_builder-IsIndexed p fits = record {
  values =
      index_from-Indexes (λ v. v) p.enum_values [] [] (omega arith)
        (λ k i l. absurd (nothing k i l));
  enums =
      index_from-Indexes (λ e. e.type) p.enums [] [] (omega arith)
        (λ k i l. absurd (nothing k i l));
  covered = index_from-Covers (λ e. e.type) p.enums [] 0 [] (λ k l. tt);
}
  where
    nothing : (k : String) (i : ℕ) → lookup {V = ℕ} k [] ≡ some i → ⊥
    nothing k i l = absurd (cc)

-- The values that a list of indices names.
abbrev pub Named : List String → List ℕ → List String → Type 0
Named values [] [] = Unit {0}
Named values [] (v ∷ vs) = ⊥
Named values (i ∷ is) [] = ⊥
Named values (i ∷ is) (v ∷ vs) = (get_elem? values i ≡ some v) × Named values is vs

pub Named-Grows :
    (xs ys : List String) (is : List ℕ) (vs : List String)
    → Grows xs ys
    → Named xs is vs
    → Named ys is vs
Named-Grows xs ys [] [] g h = tt
Named-Grows xs ys [] (v ∷ vs) g h = absurd h
Named-Grows xs ys (i ∷ is) [] g h = absurd h
Named-Grows xs ys (i ∷ is) (v ∷ vs) (more, e) (at, h) = (
  subst (λ zs. get_elem? zs i ≡ some v) (sym e) (get_elem?-append_left xs more i at),
  Named-Grows xs ys is vs (more, e) h,
)

value_index-HasValues :
    (v : String) (b : CommandBuilder)
    → HasValues b
    → Fits (value_index v b).0.pkt
    → HasValues (value_index v b).0
      × (get_elem? (value_index v b).0.pkt.enum_values (value_index v b).1 ≡ some v)
unfolding value_index
value_index-HasValues v b ix fits = elim (Option-cases (lookup v b.enum_value_indices)) [
  | inr (i, e) ↦
      let (x, at, same) = ix v i e in
      rw (e, value_index) (ix, subst (λ w. get_elem? b.pkt.enum_values i ≡ some w) same at)
  | inl e ↦
      let f : Fits (record (b.pkt) { enum_values = b.pkt.enum_values ++ v ∷ [] }) =
        rw (e, value_index) at fits in
      let small : length b.pkt.enum_values < 2 ^ 32 =
        omega (arith, length-append {0} b.pkt.enum_values (v ∷ [])) in
      rw (e, value_index)
        (
          Indexes-insert (λ w. w) b.pkt.enum_values v b.enum_value_indices small ix,
          subst (λ j. get_elem? (b.pkt.enum_values ++ v ∷ []) j ≡ some v)
              (sym (index32-of-lt (length b.pkt.enum_values) small))
              (get_elem?-append_end b.pkt.enum_values v),
        )
]

pub value_indices_of-HasValues :
    (vs : List String) (b : CommandBuilder)
    → HasValues b
    → Fits (value_indices_of vs b).0.pkt
    → HasValues (value_indices_of vs b).0
      × Named (value_indices_of vs b).0.pkt.enum_values (value_indices_of vs b).1 vs
unfolding value_indices_of
value_indices_of-HasValues [] b ix fits = (ix, tt)
value_indices_of-HasValues (v ∷ vs) b ix fits =
    let b' = (value_index v b).0 in
    let more = value_indices_of-Widens vs b' in
    let (ix', at) =
      value_index-HasValues v b ix (Fits-Extends b'.pkt _ (Extends-of-Widens _ _ more) fits) in
    let (ix'', rest) = value_indices_of-HasValues vs b' ix' fits in
    let (added, e) = more.enum_values in
    (
      ix'',
      (
        subst (λ zs. get_elem? zs (value_index v b).1 ≡ some v) (sym e)
            (get_elem?-append_left b'.pkt.enum_values added _ at),
        rest,
      ),
    )

-- The enums stay as they are meanwhile.
abbrev pub SameEnums : CommandBuilder → CommandBuilder → Type 0
SameEnums b b' = (b'.enum_indices ≡ b.enum_indices) × (b'.pkt.enums ≡ b.pkt.enums)

value_index-SameEnums : (v : String) (b : CommandBuilder) → SameEnums b (value_index v b).0
unfolding value_index
value_index-SameEnums v b = elim (Option-cases (lookup v b.enum_value_indices)) [
  | inr (i, e) ↦ rw (e, value_index) (refl, refl)
  | inl e ↦ rw (e, value_index) (refl, refl)
]

pub value_indices_of-SameEnums :
    (vs : List String) (b : CommandBuilder) → SameEnums b (value_indices_of vs b).0
unfolding value_indices_of
value_indices_of-SameEnums [] b = (refl, refl)
value_indices_of-SameEnums (v ∷ vs) b =
    let (e, f) = value_indices_of-SameEnums vs (value_index v b).0 in
    let (g, h) = value_index-SameEnums v b in (e ∙ g, f ∙ h)

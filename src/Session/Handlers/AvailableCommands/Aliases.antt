-- ===== src/Session/Handlers/AvailableCommands/Aliases.antt =====
-- The aliases of the custom commands in the packet (session/handler_available_commands.go).
use gobds.Base.{
  ℕ, ◌^◌, ◌<◌, ◌≡◌, ◌≢◌, All, refl, sym, ap, subst, ◌⊎◌, String, none, some, List, [], ◌∷◌, ◌++◌,
  length, length-append, get_elem?, get_elem?-append_left, get_elem?-append_end, Option-cases, inl,
  inr, string_eq, arith,
}
use gobds.Base.Dict.{lookup, insert}
use gobds.Strings.{concat}
use gobds.Commands.{Command}
use gobds.Session.Handlers.AvailableCommands.{
  AvailableCommands, CommandEnum, CommandBuilder, index32, value_indices_of, enum_index,
  process_aliases, no_aliases,
}
use gobds.Session.Handlers.AvailableCommands.Growth.{Extends}
use gobds.Session.Handlers.AvailableCommands.Indices.{
  Fits, IsIndexed, Indexes, Indexes-insert, Covers, Covers-insert, index32-of-lt, Named,
  Named-Grows, value_indices_of-HasValues, value_indices_of-SameEnums,
}

-- The enum of a type stands at an index of the packet.
abbrev pub HasEnumAt : AvailableCommands → String → ℕ → Type 0
HasEnumAt p type i = (e : CommandEnum) × (get_elem? p.enums i ≡ some e) × (e.type ≡ type)

-- The packet has no enum of the type.
abbrev pub HasNone : AvailableCommands → String → Type 0
HasNone p type = All (λ (e : CommandEnum). e.type ≢ type) p.enums

-- An enum at an index of the packet has the type and exactly the given values.
abbrev pub HasValuesAt : AvailableCommands → String → List String → ℕ → Type 0
HasValuesAt p type values i =
    (e : CommandEnum) × (get_elem? p.enums i ≡ some e)
    × (e.type ≡ type)
    × Named p.enum_values e.value_indices values

module _ (type : String) (values : List String) (b : CommandBuilder) (ix : IsIndexed b)
    (fits : Fits (enum_index type values b).0.pkt) where
  old_enum :
      (i : ℕ)
      → lookup type b.enum_indices ≡ some i
      → IsIndexed (enum_index type values b).0 × HasEnumAt b.pkt type (enum_index type values b).1
  unfolding enum_index
  old_enum i e = rw (e, enum_index) (ix, ix.enums type i e)

  new_enum :
      lookup type b.enum_indices ≡ none
      → IsIndexed (enum_index type values b).0
        × HasValuesAt (enum_index type values b).0.pkt type values (enum_index type values b).1
  unfolding enum_index
  new_enum e =
      let i = index32 (length b.pkt.enums) in
      let b1 = record b { enum_indices = insert type i b.enum_indices } in
      let (b2, is) = value_indices_of values b1 in
      let added : CommandEnum = record { type = type; value_indices = is } in
      let p = record (b2.pkt) { enums = b2.pkt.enums ++ added ∷ [] } in
      let f : Fits p = rw (e, enum_index) at fits in
      let f2 : Fits b2.pkt = omega (arith, length-append {0} b2.pkt.enums (added ∷ [])) in
      let (same_map, same_enums) = value_indices_of-SameEnums values b1 in
      let (has_values, named) = value_indices_of-HasValues values b1 ix.values f2 in
      let small : length b.pkt.enums < 2 ^ 32 =
        omega (arith, ap length same_enums, length-append {0} b2.pkt.enums (added ∷ [])) in
      let at_end : get_elem? (b.pkt.enums ++ added ∷ []) i ≡ some added =
        subst (λ j. get_elem? (b.pkt.enums ++ added ∷ []) j ≡ some added)
          (sym (index32-of-lt (length b.pkt.enums) small))
          (get_elem?-append_end b.pkt.enums added) in
      rw (e, enum_index)
        (
          record {
            values = has_values;
            enums =
                subst (λ m. Indexes (λ (c : CommandEnum). c.type) (b2.pkt.enums ++ added ∷ []) m)
                  (sym same_map)
                  (subst
                    (λ es.
                      Indexes (λ (c : CommandEnum). c.type) (es ++ added ∷ [])
                        (insert type i b.enum_indices))
                    (sym same_enums)
                    (Indexes-insert (λ (c : CommandEnum). c.type) b.pkt.enums added b.enum_indices
                      small ix.enums));
            covered =
                subst (λ m. Covers (λ (c : CommandEnum). c.type) (b2.pkt.enums ++ added ∷ []) m)
                  (sym same_map)
                  (subst
                    (λ es.
                      Covers (λ (c : CommandEnum). c.type) (es ++ added ∷ [])
                        (insert type i b.enum_indices))
                    (sym same_enums)
                    (Covers-insert (λ (c : CommandEnum). c.type) b.pkt.enums added i b.enum_indices
                      ix.covered));
          },
          (
            added,
            subst (λ es. get_elem? (es ++ added ∷ []) i ≡ some added) (sym same_enums) at_end,
            refl,
            named,
          ),
        )

  -- The enum was there before, or is new and has the values.
  pub enum_index-IsIndexed :
      IsIndexed (enum_index type values b).0
      × (HasEnumAt b.pkt type (enum_index type values b).1
          ⊎ (HasNone b.pkt type
              × HasValuesAt
                  (enum_index type values b).0.pkt
                  type
                  values
                  (enum_index type values b).1))
  enum_index-IsIndexed = elim (Option-cases (lookup type b.enum_indices)) [
    | inr (i, e) ↦ let (ix', at) = old_enum i e in (ix', inl at)
    | inl e ↦ let (ix', at) = new_enum e in (ix', inr (ix.covered type e, at))
  ]

-- The offset of a command that is added to a packet, in the packet that comes out: the mark for none if
-- the command has no aliases; else the index of an enum whose type is the command's name and "Aliases".
-- Either the packet had this enum before, or it had none of that type and the values of the enum are
-- exactly the command's aliases, in order.
abbrev pub RefersTo : AvailableCommands → AvailableCommands → Command → ℕ → Type 0
RefersTo before after c offset =
    ((c.aliases ≡ []) × (offset ≡ no_aliases))
    ⊎ ((c.aliases ≢ [])
        × (HasEnumAt before (concat c.name "Aliases") offset
            ⊎ (HasNone before (concat c.name "Aliases")
                × HasValuesAt after (concat c.name "Aliases") c.aliases offset)))

pub process_aliases-IsIndexed :
    (c : Command) (b : CommandBuilder)
    → IsIndexed b
    → Fits (process_aliases c b).0.pkt
    → IsIndexed (process_aliases c b).0
      × RefersTo b.pkt (process_aliases c b).0.pkt c (process_aliases c b).1
unfolding process_aliases
process_aliases-IsIndexed c b ix fits = by_aliases c.aliases fits
  where
    by_aliases :
        (as' : List String)
        → Fits (process_aliases (record c { aliases = as' }) b).0.pkt
        → let r = process_aliases (record c { aliases = as' }) b in
          IsIndexed r.0 × RefersTo b.pkt r.0.pkt (record c { aliases = as' }) r.1
    by_aliases [] f = (ix, inl (refl, refl))
    by_aliases (a ∷ as') f =
        let (ix', at) = enum_index-IsIndexed (concat c.name "Aliases") (a ∷ as') b ix f in
        (ix', inr (λ e. absurd (cc), at))

HasValuesAt-Extends :
    (p q : AvailableCommands) (type : String) (values : List String) (i : ℕ)
    → Extends p q
    → HasValuesAt p type values i
    → HasValuesAt q type values i
HasValuesAt-Extends p q type values i h (e, at, same, named) =
    let (more, f) = h.enums in
    (
      e,
      subst (λ es. get_elem? es i ≡ some e) (sym f) (get_elem?-append_left p.enums more i at),
      same,
      Named-Grows p.enum_values q.enum_values e.value_indices values h.enum_values named,
    )

pub RefersTo-Extends :
    (before p q : AvailableCommands) (c : Command) (offset : ℕ)
    → Extends p q
    → RefersTo before p c offset
    → RefersTo before q c offset
RefersTo-Extends before p q c offset h (inl none_given) = inl none_given
RefersTo-Extends before p q c offset h (inr (given, inl at)) = inr (given, inl at)
RefersTo-Extends before p q c offset h (inr (given, inr (fresh, at))) =
    inr (given, inr (fresh, HasValuesAt-Extends p q _ c.aliases offset h at))

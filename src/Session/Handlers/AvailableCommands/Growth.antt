-- ===== src/Session/Handlers/AvailableCommands/Growth.antt =====
-- The packet of commands only grows (session/handler_available_commands.go).
use mathlib.Core.List.{append-nil, append_assoc}
use gobds.Base.{
  ℕ, ◌≤◌, ◌≡◌, refl, sym, ap, ◌∙◌, subst, String, not, List, [], ◌∷◌, ◌++◌, length, length-append,
  Option-cases, inl, inr, if_both, string_eq, ◌==◌, arith,
}
use gobds.Base.Dict.{lookup}
use gobds.Commands.{Command, ParamInfo}
use gobds.Session.Handlers.AvailableCommands.Codes.{CommandCodes}
use gobds.Session.Handlers.AvailableCommands.{
  AvailableCommands, PacketCommand, CommandEnum, DynamicEnum, CommandBuilder, value_index,
  value_indices_of, enum_index, process_aliases, dynamic_enum_index, EnumDef, handle_enum,
  suffix_index, handle_suffix, process_param, process_overload, process_params, append_command,
  append_commands, with_enum, with_suffix,
}

-- One list begins with another.
abbrev pub Grows : {A : Type 0} → List A → List A → Type 0
Grows {A} xs ys = (more : List A) × (ys ≡ xs ++ more)

pub Grows-refl : {A : Type 0} (xs : List A) → Grows xs xs
Grows-refl xs = ([], sym (append-nil xs))

pub Grows-one : {A : Type 0} (xs : List A) (x : A) → Grows xs (xs ++ x ∷ [])
Grows-one xs x = (x ∷ [], refl)

pub Grows-trans : {A : Type 0} (xs ys zs : List A) → Grows xs ys → Grows ys zs → Grows xs zs
Grows-trans xs ys zs (m, e) (n, f) = (m ++ n, f ∙ ap (λ l. l ++ n) e ∙ append_assoc xs m n)

pub length-Grows : {A : Type 0} (xs ys : List A) → Grows xs ys → length xs ≤ length ys
length-Grows xs ys (m, e) = omega (arith, ap length e, length-append {0} xs m)

-- A packet with the same commands, whose other lists begin with those of another.
pub record Widens (p q : AvailableCommands) : Type 0 where
  pub commands : q.commands ≡ p.commands
  pub enums : Grows p.enums q.enums
  pub enum_values : Grows p.enum_values q.enum_values
  pub dynamic_enums : Grows p.dynamic_enums q.dynamic_enums
  pub suffixes : Grows p.suffixes q.suffixes

pub Widens-refl : (p : AvailableCommands) → Widens p p
Widens-refl p = record {
  commands = refl;
  enums = Grows-refl p.enums;
  enum_values = Grows-refl p.enum_values;
  dynamic_enums = Grows-refl p.dynamic_enums;
  suffixes = Grows-refl p.suffixes;
}

pub Widens-trans : (p q r : AvailableCommands) → Widens p q → Widens q r → Widens p r
Widens-trans p q r h k = record {
  commands = k.commands ∙ h.commands;
  enums = Grows-trans p.enums q.enums r.enums h.enums k.enums;
  enum_values = Grows-trans p.enum_values q.enum_values r.enum_values h.enum_values k.enum_values;
  dynamic_enums =
      Grows-trans p.dynamic_enums q.dynamic_enums r.dynamic_enums h.dynamic_enums k.dynamic_enums;
  suffixes = Grows-trans p.suffixes q.suffixes r.suffixes h.suffixes k.suffixes;
}

grow_enums :
    (p : AvailableCommands) (x : CommandEnum) → Widens p (record p { enums = p.enums ++ x ∷ [] })
grow_enums p x = record {
  commands = refl;
  enums = Grows-one p.enums x;
  enum_values = Grows-refl p.enum_values;
  dynamic_enums = Grows-refl p.dynamic_enums;
  suffixes = Grows-refl p.suffixes;
}

grow_enum_values :
    (p : AvailableCommands) (x : String)
    → Widens p (record p { enum_values = p.enum_values ++ x ∷ [] })
grow_enum_values p x = record {
  commands = refl;
  enums = Grows-refl p.enums;
  enum_values = Grows-one p.enum_values x;
  dynamic_enums = Grows-refl p.dynamic_enums;
  suffixes = Grows-refl p.suffixes;
}

grow_dynamic_enums :
    (p : AvailableCommands) (x : DynamicEnum)
    → Widens p (record p { dynamic_enums = p.dynamic_enums ++ x ∷ [] })
grow_dynamic_enums p x = record {
  commands = refl;
  enums = Grows-refl p.enums;
  enum_values = Grows-refl p.enum_values;
  dynamic_enums = Grows-one p.dynamic_enums x;
  suffixes = Grows-refl p.suffixes;
}

grow_suffixes :
    (p : AvailableCommands) (x : String) → Widens p (record p { suffixes = p.suffixes ++ x ∷ [] })
grow_suffixes p x = record {
  commands = refl;
  enums = Grows-refl p.enums;
  enum_values = Grows-refl p.enum_values;
  dynamic_enums = Grows-refl p.dynamic_enums;
  suffixes = Grows-one p.suffixes x;
}

-- The packet of a builder and of what a step makes of it.
abbrev pub Step {ℓ} : {A : Type ℓ} → CommandBuilder → CommandBuilder × A → Type 0
Step b r = Widens b.pkt r.0.pkt

pub value_index-Widens : (v : String) (b : CommandBuilder) → Step b (value_index v b)
unfolding value_index
value_index-Widens v b = elim (Option-cases (lookup v b.enum_value_indices)) [
  | inr (i, e) ↦ rw (e, value_index) (Widens-refl b.pkt)
  | inl e ↦ rw (e, value_index) (grow_enum_values b.pkt v)
]

pub value_indices_of-Widens :
    (vs : List String) (b : CommandBuilder) → Step b (value_indices_of vs b)
unfolding value_indices_of
value_indices_of-Widens [] b = Widens-refl b.pkt
value_indices_of-Widens (v ∷ vs) b =
    Widens-trans b.pkt _ _ (value_index-Widens v b) (value_indices_of-Widens vs (value_index v b).0)

pub enum_index-Widens :
    (type : String) (values : List String) (b : CommandBuilder) → Step b (enum_index type values b)
unfolding enum_index
enum_index-Widens type values b = elim (Option-cases (lookup type b.enum_indices)) [
  | inr (i, e) ↦ rw (e, enum_index) (Widens-refl b.pkt)
  | inl e ↦
      rw (e, enum_index)
        (Widens-trans b.pkt _ _ (value_indices_of-Widens values _) (grow_enums _ _))
]

pub process_aliases-Widens : (c : Command) (b : CommandBuilder) → Step b (process_aliases c b)
unfolding process_aliases
process_aliases-Widens c b = by_aliases c.aliases
  where
    by_aliases : (as' : List String) → Step b (process_aliases (record c { aliases = as' }) b)
    by_aliases [] = Widens-refl b.pkt
    by_aliases (a ∷ as') = enum_index-Widens _ (a ∷ as') b

dynamic_enum_index-Widens :
    (type : String) (values : List String) (b : CommandBuilder)
    → Step b (dynamic_enum_index type values b)
unfolding dynamic_enum_index
dynamic_enum_index-Widens type values b = elim (Option-cases (lookup type b.dynamic_enum_indices)) [
  | inr (i, e) ↦ rw (e, dynamic_enum_index) (Widens-refl b.pkt)
  | inl e ↦ rw (e, dynamic_enum_index) (grow_dynamic_enums b.pkt _)
]

suffix_index-Widens : (suffix : String) (b : CommandBuilder) → Step b (suffix_index suffix b)
unfolding suffix_index
suffix_index-Widens suffix b = elim (Option-cases (lookup suffix b.suffix_indices)) [
  | inr (i, e) ↦ rw (e, suffix_index) (Widens-refl b.pkt)
  | inl e ↦ rw (e, suffix_index) (grow_suffixes b.pkt suffix)
]

module _ (codes : CommandCodes) where
  with_enum-Widens : (t : ℕ) (def : EnumDef) (b : CommandBuilder) → Step b (with_enum codes t def b)
  unfolding handle_enum
  with_enum-Widens t def b =
      if_both (λ (r : CommandBuilder × ℕ). Step b r) (not (def.type == ""))
        (if_both (λ (r : CommandBuilder × ℕ). Step b r) (not def.dynamic)
          (enum_index-Widens def.type def.options b)
          (dynamic_enum_index-Widens def.type def.options b))
        (Widens-refl b.pkt)

  pub with_suffix-Widens :
      (suffix : String) (r : CommandBuilder × ℕ) → Step r.0 (with_suffix codes suffix r)
  unfolding handle_suffix
  with_suffix-Widens suffix (b, t) =
      if_both (λ (r : CommandBuilder × ℕ). Step b r) (not (suffix == ""))
        (suffix_index-Widens suffix b) (Widens-refl b.pkt)

  pub process_param-Widens : (p : ParamInfo) (b : CommandBuilder) → Step b (process_param codes p b)
  unfolding process_param
  process_param-Widens p b =
      Widens-trans b.pkt _ _ (with_enum-Widens _ _ b) (with_suffix-Widens p.suffix _)

  pub process_overload-Widens :
      (ps : List ParamInfo) (b : CommandBuilder) → Step b (process_overload codes ps b)
  unfolding process_overload
  process_overload-Widens [] b = Widens-refl b.pkt
  process_overload-Widens (p ∷ ps) b =
      Widens-trans b.pkt _ _ (process_param-Widens p b)
        (process_overload-Widens ps (process_param codes p b).0)

  pub process_params-Widens :
      (os : List (List ParamInfo)) (b : CommandBuilder) → Step b (process_params codes os b)
  unfolding process_params
  process_params-Widens [] b = Widens-refl b.pkt
  process_params-Widens (o ∷ os) b =
      Widens-trans b.pkt _ _ (process_overload-Widens o b)
        (process_params-Widens os (process_overload codes o b).0)

-- Each list of a packet begins with that of another.
pub record Extends (p q : AvailableCommands) : Type 0 where
  pub commands : Grows p.commands q.commands
  pub enums : Grows p.enums q.enums
  pub enum_values : Grows p.enum_values q.enum_values
  pub dynamic_enums : Grows p.dynamic_enums q.dynamic_enums
  pub suffixes : Grows p.suffixes q.suffixes

pub Extends-refl : (p : AvailableCommands) → Extends p p
Extends-refl p = record {
  commands = Grows-refl p.commands;
  enums = Grows-refl p.enums;
  enum_values = Grows-refl p.enum_values;
  dynamic_enums = Grows-refl p.dynamic_enums;
  suffixes = Grows-refl p.suffixes;
}

pub Extends-trans : (p q r : AvailableCommands) → Extends p q → Extends q r → Extends p r
Extends-trans p q r h k = record {
  commands = Grows-trans p.commands q.commands r.commands h.commands k.commands;
  enums = Grows-trans p.enums q.enums r.enums h.enums k.enums;
  enum_values = Grows-trans p.enum_values q.enum_values r.enum_values h.enum_values k.enum_values;
  dynamic_enums =
      Grows-trans p.dynamic_enums q.dynamic_enums r.dynamic_enums h.dynamic_enums k.dynamic_enums;
  suffixes = Grows-trans p.suffixes q.suffixes r.suffixes h.suffixes k.suffixes;
}

grow_commands :
    (p : AvailableCommands) (x : PacketCommand)
    → Extends p (record p { commands = p.commands ++ x ∷ [] })
grow_commands p x = record {
  commands = Grows-one p.commands x;
  enums = Grows-refl p.enums;
  enum_values = Grows-refl p.enum_values;
  dynamic_enums = Grows-refl p.dynamic_enums;
  suffixes = Grows-refl p.suffixes;
}

pub Extends-of-Widens : (p q : AvailableCommands) → Widens p q → Extends p q
Extends-of-Widens p q h = record {
  commands = subst (Grows p.commands) (sym h.commands) (Grows-refl p.commands);
  enums = h.enums;
  enum_values = h.enum_values;
  dynamic_enums = h.dynamic_enums;
  suffixes = h.suffixes;
}

-- The builder before the command itself is appended.
abbrev pub prepared : CommandCodes → Command → CommandBuilder → CommandBuilder
prepared codes c b = (process_params codes c.params (process_aliases c b).0).0

pub prepared-Widens :
    (codes : CommandCodes) (c : Command) (b : CommandBuilder)
    → Widens b.pkt (prepared codes c b).pkt
prepared-Widens codes c b =
    Widens-trans b.pkt _ _ (process_aliases-Widens c b)
      (process_params-Widens codes c.params (process_aliases c b).0)

module _ (codes : CommandCodes) where
  pub last-Extends :
      (c : Command) (b : CommandBuilder)
      → Extends (prepared codes c b).pkt (append_command codes c b).pkt
  unfolding append_command
  last-Extends c b = grow_commands _ _

  pub append_command-Extends :
      (c : Command) (b : CommandBuilder) → Extends b.pkt (append_command codes c b).pkt
  append_command-Extends c b =
      Extends-trans b.pkt (prepared codes c b).pkt _
        (Extends-of-Widens _ _ (prepared-Widens codes c b)) (last-Extends c b)

  pub append_commands-Extends :
      (cs : List Command) (b : CommandBuilder) → Extends b.pkt (append_commands codes cs b).pkt
  unfolding append_commands
  append_commands-Extends [] b = Extends-refl b.pkt
  append_commands-Extends (c ∷ cs) b =
      Extends-trans b.pkt _ _ (append_command-Extends c b)
        (append_commands-Extends cs (append_command codes c b))

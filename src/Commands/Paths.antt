-- ===== src/Commands/Paths.antt =====
-- The overloads of a command, as the paths of its tree (gobds/cmd/register.go).
use gobds.Base.{
  ◌≡◌, refl, ap, sym, subst, ◌↔◌, ◌⊎◌, ◌≢◌, inl, inr, Bool, true, false, List, [], ◌∷◌, ◌++◌, map,
  if◌then◌else◌,
}
use gobds.Commands.{
  Attributes, EngineResponseCommand, node, Children, no_child, child, build_command_paths,
  paths_below, ParamInfo, param_of, path_overloads, build_command_overloads,
}

-- A path from a node down to one that can be called.
mutual
  pub data Leads : EngineResponseCommand → List Attributes → Type 0 where
    stop : {a : Attributes} {cs : Children} → a.can_be_called ≡ true → Leads (node a cs) (a ∷ [])
    down :
        {a : Attributes} {cs : Children} {path : List Attributes}
        → LeadsBelow cs path
        → Leads (node a cs) (a ∷ path)

  pub data LeadsBelow : Children → List Attributes → Type 0 where
    first :
        {c : EngineResponseCommand} {cs : Children} {path : List Attributes}
        → Leads c path
        → LeadsBelow (child c cs) path
    later :
        {c : EngineResponseCommand} {cs : Children} {path : List Attributes}
        → LeadsBelow cs path
        → LeadsBelow (child c cs) path

-- An item of a list.
abbrev pub Among : {A : Type 0} → A → List A → Type 0
Among x [] = ⊥
Among x (y ∷ ys) = (x ≡ y) ⊎ Among x ys

Among-append : {A : Type 0} (x : A) (xs ys : List A) → Among x (xs ++ ys) → Among x xs ⊎ Among x ys
Among-append x [] ys h = inr h
Among-append x (z ∷ xs) ys (inl e) = inl (inl e)
Among-append x (z ∷ xs) ys (inr h) = elim (Among-append x xs ys h) [
  | inl k ↦ inl (inr k)
  | inr k ↦ inr k
]

append-Among_left : {A : Type 0} (x : A) (xs ys : List A) → Among x xs → Among x (xs ++ ys)
append-Among_left x [] ys h = absurd h
append-Among_left x (z ∷ xs) ys (inl e) = inl e
append-Among_left x (z ∷ xs) ys (inr h) = inr (append-Among_left x xs ys h)

append-Among_right : {A : Type 0} (x : A) (xs ys : List A) → Among x ys → Among x (xs ++ ys)
append-Among_right x [] ys h = h
append-Among_right x (z ∷ xs) ys h = inr (append-Among_right x xs ys h)

Among-map :
    {A B : Type 0} (f : A → B) (y : B) (xs : List A)
    → Among y (map f xs)
    → (x : A) × Among x xs × (y ≡ f x)
Among-map f y [] h = absurd h
Among-map f y (x ∷ xs) (inl e) = (x, inl refl, e)
Among-map f y (x ∷ xs) (inr h) = let (z, k, e) = Among-map f y xs h in (z, inr k, e)

map-Among : {A B : Type 0} (f : A → B) (x : A) (xs : List A) → Among x xs → Among (f x) (map f xs)
map-Among f x [] h = absurd h
map-Among f x (z ∷ xs) (inl e) = inl (ap f e)
map-Among f x (z ∷ xs) (inr h) = inr (map-Among f x xs h)

-- A list with one item more where a test holds.
module _ (x : List Attributes) (below : List (List Attributes)) where
  if_first :
      (b : Bool) (y : List Attributes)
      → Among y (if b then x ∷ below else below)
      → ((b ≡ true) × (y ≡ x)) ⊎ Among y below
  if_first true y (inl e) = inl (refl, e)
  if_first true y (inr h) = inr h
  if_first false y h = inr h

  if_below :
      (b : Bool) (y : List Attributes) → Among y below → Among y (if b then x ∷ below else below)
  if_below true y h = inr h
  if_below false y h = h

  if_itself : (b : Bool) → b ≡ true → Among x (if b then x ∷ below else below)
  if_itself true h = inl refl
  if_itself false h = absurd cc

mutual
  unfolding build_command_paths

  Leads-of-Among :
      (n : EngineResponseCommand) (path : List Attributes)
      → Among path (build_command_paths n)
      → Leads n path
  Leads-of-Among (node a cs) path h =
      elim (if_first (a ∷ []) (paths_below a cs) a.can_be_called path h) [
        | inl (yes_it, e) ↦ subst (Leads (node a cs)) (sym e) (stop yes_it)
        | inr k ↦
            let (q, e, l) = LeadsBelow-of-Among a cs path k in
            subst (Leads (node a cs)) (sym e) (down l)
      ]

  LeadsBelow-of-Among :
      (a : Attributes) (cs : Children) (path : List Attributes)
      → Among path (paths_below a cs)
      → (q : List Attributes) × (path ≡ a ∷ q) × LeadsBelow cs q
  LeadsBelow-of-Among a no_child path h = absurd h
  LeadsBelow-of-Among a (child c cs) path h =
      elim (Among-append path (map (λ q. a ∷ q) (build_command_paths c)) (paths_below a cs) h) [
        | inl k ↦
            let (q, l, e) = Among-map (λ q. a ∷ q) path (build_command_paths c) k in
            (q, e, first (Leads-of-Among c q l))
        | inr k ↦ let (q, e, l) = LeadsBelow-of-Among a cs path k in (q, e, later l)
      ]

mutual
  unfolding build_command_paths

  Among-of-Leads :
      {n : EngineResponseCommand} {path : List Attributes}
      → Leads n path
      → Among path (build_command_paths n)
  Among-of-Leads (stop {a} {cs} h) = if_itself (a ∷ []) (paths_below a cs) a.can_be_called h
  Among-of-Leads (down {a} {cs} {path} l) =
      if_below (a ∷ []) (paths_below a cs) a.can_be_called (a ∷ path) (Among-of-LeadsBelow a l)

  Among-of-LeadsBelow :
      (a : Attributes) {cs : Children} {path : List Attributes}
      → LeadsBelow cs path
      → Among (a ∷ path) (paths_below a cs)
  Among-of-LeadsBelow a (first {c} {cs} {path} l) =
      append-Among_left _ (map (λ q. a ∷ q) (build_command_paths c)) (paths_below a cs)
        (map-Among (λ q. a ∷ q) path (build_command_paths c) (Among-of-Leads l))
  Among-of-LeadsBelow a (later {c} {cs} {path} l) =
      append-Among_right _ (map (λ q. a ∷ q) (build_command_paths c)) (paths_below a cs)
        (Among-of-LeadsBelow a l)

-- A path is not empty.
not-Leads-nil : {n : EngineResponseCommand} {path : List Attributes} → Leads n path → path ≢ []
not-Leads-nil (stop h) e = cc
not-Leads-nil (down l) e = cc

Among-path_overloads :
    (o : List ParamInfo) (paths : List (List Attributes))
    → Among o (path_overloads paths)
    → (path : List Attributes) × Among path paths × (o ≡ map param_of path)
unfolding path_overloads
Among-path_overloads o [] h = absurd h
Among-path_overloads o ([] ∷ paths) h =
    let (q, k, e) = Among-path_overloads o paths h in (q, inr k, e)
Among-path_overloads o ((a ∷ path) ∷ paths) (inl e) = (a ∷ path, inl refl, e)
Among-path_overloads o ((a ∷ path) ∷ paths) (inr h) =
    let (q, k, e) = Among-path_overloads o paths h in (q, inr k, e)

path_overloads-Among :
    (path : List Attributes) (paths : List (List Attributes))
    → path ≢ []
    → Among path paths
    → Among (map param_of path) (path_overloads paths)
unfolding path_overloads
path_overloads-Among path [] h k = absurd k
path_overloads-Among path ([] ∷ paths) h (inl e) = absurd (h e)
path_overloads-Among path ([] ∷ paths) h (inr k) = path_overloads-Among path paths h k
path_overloads-Among path ((a ∷ q) ∷ paths) h (inl e) = inl (ap (map param_of) e)
path_overloads-Among path ((a ∷ q) ∷ paths) h (inr k) = inr (path_overloads-Among path paths h k)

overload-of-path :
    (cs : Children) (o : List ParamInfo)
    → Among o (build_command_overloads cs)
    → (path : List Attributes) × LeadsBelow cs path × (o ≡ map param_of path)
unfolding build_command_overloads
overload-of-path no_child o h = absurd h
overload-of-path (child c cs) o h =
    elim (Among-append o (path_overloads (build_command_paths c)) (build_command_overloads cs) h) [
      | inl k ↦
          let (path, l, e) = Among-path_overloads o (build_command_paths c) k in
          (path, first (Leads-of-Among c path l), e)
      | inr k ↦ let (path, l, e) = overload-of-path cs o k in (path, later l, e)
    ]

path-of-overload :
    {cs : Children} {path : List Attributes}
    → LeadsBelow cs path
    → Among (map param_of path) (build_command_overloads cs)
unfolding build_command_overloads
path-of-overload (first {c} {cs} {path} l) =
    append-Among_left _ (path_overloads (build_command_paths c)) (build_command_overloads cs)
      (path_overloads-Among path (build_command_paths c) (not-Leads-nil l) (Among-of-Leads l))
path-of-overload (later {c} {cs} {path} l) =
    append-Among_right _ (path_overloads (build_command_paths c)) (build_command_overloads cs)
      (path-of-overload l)

-- The overloads that are built for the children of a command are exactly those of the paths from a
-- child down to a node that can be called, each with one parameter for each node of its path.
pub build_command_overloads_iff :
    (cs : Children) (o : List ParamInfo)
    → Among o (build_command_overloads cs)
      ↔ ((path : List Attributes) × LeadsBelow cs path × (o ≡ map param_of path))
build_command_overloads_iff cs o = (
  overload-of-path cs o,
  λ (path, l, e). subst (λ v. Among v (build_command_overloads cs)) (sym e) (path-of-overload l),
)

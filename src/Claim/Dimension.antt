-- ===== src/Claim/Dimension.antt =====
-- CanonicalDimension of claim/snapshot.go.
use gobds.Strings.{is_empty, trim_space, to_lower, split}
use gobds.Base.{
  String, ◌≡◌, refl, Bool, true, false, ◌&&◌, ◌||◌, not, List, [], ◌∷◌, ◌==◌, nat_eq, string_eq,
  ℕ_discrete, if◌then◌else◌,
}

abbrev two_parts : List String → Bool
two_parts [] = false
two_parts (p ∷ []) = false
two_parts (p ∷ q ∷ []) = not (is_empty p) && not (is_empty q)
two_parts (p ∷ q ∷ r ∷ rest) = false

resolve_alias : String → String
resolve_alias v =
    if v == "overworld"
    then "minecraft:overworld"
    else if v == "nether"
    then "minecraft:nether"
    else if v == "end" || v == "the_end"
    then "minecraft:end"
    else v

unfoldable pub canonical_dimension : String → String × Bool
unfolding resolve_alias trim_space to_lower split
canonical_dimension value =
    let v = resolve_alias (to_lower (trim_space value)) in (v, two_parts (split b':' v))

overworld_alias : canonical_dimension " OverWorld\n" ≡ ("minecraft:overworld", true)
unfolding canonical_dimension string_eq ℕ_discrete
overworld_alias = refl

custom_dimension : canonical_dimension "Poke:Arena" ≡ ("poke:arena", true)
unfolding canonical_dimension string_eq ℕ_discrete
custom_dimension = refl

unnamed_dimension : canonical_dimension "a:b:" ≡ ("a:b:", false)
unfolding canonical_dimension string_eq ℕ_discrete
unnamed_dimension = refl

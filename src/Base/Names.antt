-- ===== src/Base/Names.antt =====
-- Lists of names as the sets that Go code builds from them: `toSet`, `stableUnion`, `without`,
-- `sortedCopy` and `sortedUnique` of agent/policy/compile.go, validate.go and gate.go.
-- A `map[string]bool` is only ever read by key, or iterated into a slice that is then sorted.
pub mod Order
pub mod Membership
pub mod Canonical
pub mod Pigeonhole
use Prim.Native.Nat.{Ordering}
use Prim.Native.String.{String, compare}
use mathlib.Core.Bool.{Bool, true, false, ◌||◌, not}
use mathlib.Core.List.{List, [], ◌∷◌, ◌++◌}
use text.Mathlib.Text.{◌==◌ as str_eq}
use review.Base.Tests.{if◌then◌else◌}
use Order.{str_ltb}

-- `toSet(values)[wanted]`
unfoldable pub contains : List String → String → Bool
contains [] wanted = false
contains (value ∷ values) wanted = str_eq value wanted || contains values wanted

-- The body of the inner loop of `stableUnion`; `seen` is the set of what `out` holds.
unfoldable pub add_new : List String → String → List String
add_new out value = if contains out value then out else out ++ value ∷ []

unfoldable pub stable_union : List String → List String → List String
stable_union out [] = out
stable_union out (value ∷ values) = stable_union (add_new out value) values

unfoldable pub without : List String → List String → List String
without [] removed = []
without (value ∷ values) removed =
    if contains removed value then without values removed else value ∷ without values removed

unfoldable pub intersects : List String → List String → Bool
intersects a [] = false
intersects a (value ∷ b) = contains a value || intersects a b

-- `sort.Strings`
unfoldable pub insert_sorted : String → List String → List String
insert_sorted v [] = v ∷ []
insert_sorted v (x ∷ xs) = if str_ltb x v then x ∷ insert_sorted v xs else v ∷ x ∷ xs

unfoldable pub sorted_copy : List String → List String
sorted_copy [] = []
sorted_copy (x ∷ xs) = insert_sorted x (sorted_copy xs)

-- The keys of the set that `sortedUnique` fills, each once.
unfoldable pub nonempty_keys : List String → List String
nonempty_keys [] = []
nonempty_keys (value ∷ values) =
    let rest = nonempty_keys values in
    if str_eq value "" || contains rest value then rest else value ∷ rest

unfoldable pub sorted_unique : List String → List String
unfolding nonempty_keys sorted_copy insert_sorted contains
sorted_unique values = sorted_copy (nonempty_keys values)

-- ===== src/Base/Names/Membership.antt =====
-- Membership in the lists that the set operations build.
use review.Base.Lists.{is_empty}
use review.Base.Names.{
  contains, add_new, stable_union, without, insert_sorted, sorted_copy, nonempty_keys,
  sorted_unique,
}
use mathlib.Core.Path.{◌≡◌, refl, ◌∙◌}
use mathlib.Core.Bool.{true, false, ◌||◌, ◌&&◌, not}
use mathlib.Core.List.{List, [], ◌∷◌, ◌++◌}
use Prim.Native.String.{String}
use text.Mathlib.Text.{◌==◌ as str_eq}
use text.Mathlib.TextEquality.{eq_iff}
use native.Mathlib.Omega.{arith}

pub contains-append :
    (xs ys : List String) (w : String) → contains (xs ++ ys) w ≡ (contains xs w || contains ys w)
unfolding contains
contains-append [] ys w = refl
contains-append (x ∷ xs) ys w = ground (arith, contains-append xs ys w)

pub contains-add_new :
    (out : List String) (v w : String) → contains (add_new out v) w ≡ (contains out w || str_eq v w)
unfolding contains add_new
contains-add_new out v w = ground (arith, contains-append out (v ∷ []) w, eq_iff v w)

-- A stable union holds what either list holds.
pub contains-stable_union :
    (out values : List String) (w : String)
    → contains (stable_union out values) w ≡ (contains out w || contains values w)
unfolding contains stable_union
contains-stable_union out [] w = ground arith
contains-stable_union out (v ∷ values) w =
    ground (arith, contains-stable_union (add_new out v) values w, contains-add_new out v w)

pub contains-without :
    (values removed : List String) (w : String)
    → contains (without values removed) w ≡ (contains values w && not (contains removed w))
unfolding contains without
contains-without [] removed w = refl
contains-without (v ∷ values) removed w =
    ground (arith, contains-without values removed w, eq_iff v w)

contains-insert_sorted :
    (v : String) (xs : List String) (w : String)
    → contains (insert_sorted v xs) w ≡ (str_eq v w || contains xs w)
unfolding contains insert_sorted
contains-insert_sorted v [] w = refl
contains-insert_sorted v (x ∷ xs) w = ground (arith, contains-insert_sorted v xs w)

pub contains-sorted_copy :
    (xs : List String) (w : String) → contains (sorted_copy xs) w ≡ contains xs w
unfolding contains sorted_copy
contains-sorted_copy [] w = refl
contains-sorted_copy (x ∷ xs) w =
    ground (arith, contains-insert_sorted x (sorted_copy xs) w, contains-sorted_copy xs w)

contains-nonempty_keys :
    (xs : List String) (w : String)
    → contains (nonempty_keys xs) w ≡ (contains xs w && not (str_eq w ""))
unfolding contains nonempty_keys
contains-nonempty_keys [] w = refl
contains-nonempty_keys (x ∷ xs) w = ground (
  arith,
  contains-nonempty_keys xs w,
  contains-nonempty_keys xs x,
  eq_iff x w,
  eq_iff x "",
  eq_iff w "",
)

pub contains-sorted_unique :
    (xs : List String) (w : String)
    → contains (sorted_unique xs) w ≡ (contains xs w && not (str_eq w ""))
unfolding sorted_unique
contains-sorted_unique xs w =
    contains-sorted_copy (nonempty_keys xs) w ∙ contains-nonempty_keys xs w

-- A list with no member is empty.
pub empty_of_contains : (xs : List String) → ((w : String) → contains xs w ≡ false) → xs ≡ []
unfolding contains
empty_of_contains [] h = refl
empty_of_contains (x ∷ xs) h = absurd (ground (arith, h x, eq_iff x x))

pub not_contains_of_empty :
    (xs : List String) (w : String) → is_empty xs ≡ true → contains xs w ≡ false
unfolding contains
not_contains_of_empty [] w h = refl
not_contains_of_empty (x ∷ xs) w h = cc

-- ===== src/Base/Names/Canonical.antt =====
-- About `sortedUnique` of agent/policy/gate.go and the order in which Go iterates over a set.
use review.Base.Names.{contains, insert_sorted, sorted_copy, nonempty_keys, sorted_unique}
use review.Base.Names.Order.{str_ltb, str_ltb_irrefl, str_ltb_total, str_ltb_trans}
use review.Base.Names.Membership.{contains-sorted_copy, contains-sorted_unique}
use mathlib.Core.Path.{◌≡◌, refl, ◌∙◌, ap₂}
use mathlib.Core.Bool.{true, false}
use mathlib.Core.List.{List, [], ◌∷◌}
use Prim.Native.String.{String}
use text.Mathlib.TextEquality.{eq_iff}
use text.Mathlib.TextPositions.{eq_refl}
use native.Mathlib.Omega.{arith}

-- `v` comes before every name of the list.
abbrev pub Before : String → List String → Type 0
Before v [] = Unit {0}
Before v (x ∷ xs) = (str_ltb v x ≡ true) × Before v xs

-- Strictly increasing.
abbrev pub IsStrict : List String → Type 0
IsStrict [] = Unit {0}
IsStrict (x ∷ xs) = Before x xs × IsStrict xs

Before-weaken : (v w : String) (xs : List String) → str_ltb v w ≡ true → Before w xs → Before v xs
Before-weaken v w [] h b = tt
Before-weaken v w (x ∷ xs) h (b, bs) = (str_ltb_trans v w x h b, Before-weaken v w xs h bs)

insert_sorted-Before :
    (u v : String) (xs : List String)
    → str_ltb u v ≡ true
    → Before u xs
    → Before u (insert_sorted v xs)
unfolding insert_sorted
insert_sorted-Before u v [] h b = (h, tt)
insert_sorted-Before u v (x ∷ xs) h b = ground (arith, insert_sorted-Before u v xs h b.1)

insert_sorted-IsStrict :
    (v : String) (xs : List String)
    → contains xs v ≡ false
    → IsStrict xs
    → IsStrict (insert_sorted v xs)
unfolding insert_sorted contains
insert_sorted-IsStrict v [] h s = (tt, tt)
insert_sorted-IsStrict v (x ∷ xs) h (b, s) = ground (
  arith,
  str_ltb_total x v,
  eq_iff x v,
  insert_sorted-Before x v xs,
  insert_sorted-IsStrict v xs,
  Before-weaken v x xs,
)

pub not_contains_of_Before : (v : String) (xs : List String) → Before v xs → contains xs v ≡ false
unfolding contains
not_contains_of_Before v [] b = refl
not_contains_of_Before v (x ∷ xs) (b, bs) =
    ground (arith, not_contains_of_Before v xs bs, eq_iff x v, str_ltb_irrefl v)

not_contains-nonempty_keys :
    (xs : List String) (v : String) → contains xs v ≡ false → contains (nonempty_keys xs) v ≡ false
unfolding nonempty_keys contains
not_contains-nonempty_keys [] v h = refl
not_contains-nonempty_keys (x ∷ xs) v h = ground (arith, not_contains-nonempty_keys xs v)

-- Every name is held once.
abbrev pub IsNodup : List String → Type 0
IsNodup [] = Unit {0}
IsNodup (x ∷ xs) = (contains xs x ≡ false) × IsNodup xs

nonempty_keys-IsNodup : (xs : List String) → IsNodup (nonempty_keys xs)
unfolding nonempty_keys
nonempty_keys-IsNodup [] = tt
nonempty_keys-IsNodup (x ∷ xs) = ground (arith, nonempty_keys-IsNodup xs)

sorted_copy-IsStrict : (xs : List String) → IsNodup xs → IsStrict (sorted_copy xs)
unfolding sorted_copy
sorted_copy-IsStrict [] h = tt
sorted_copy-IsStrict (x ∷ xs) (h, hs) =
    insert_sorted-IsStrict x (sorted_copy xs) (contains-sorted_copy xs x ∙ h)
      (sorted_copy-IsStrict xs hs)

pub sorted_unique-IsStrict : (xs : List String) → IsStrict (sorted_unique xs)
unfolding sorted_unique
sorted_unique-IsStrict xs = sorted_copy-IsStrict (nonempty_keys xs) (nonempty_keys-IsNodup xs)

-- The first names of two strictly increasing lists with the same members agree.
IsStrict-heads :
    (x y : String) (xs ys : List String)
    → IsStrict (x ∷ xs)
    → IsStrict (y ∷ ys)
    → ((w : String) → contains (x ∷ xs) w ≡ contains (y ∷ ys) w)
    → x ≡ y
unfolding contains
IsStrict-heads x y xs ys (bx, sx) (by', sy) same = ground (
  arith,
  same x,
  same y,
  eq_iff x x,
  eq_iff y y,
  eq_iff x y,
  eq_iff y x,
  str_ltb_total x y,
  not_contains_of_Before x ys,
  not_contains_of_Before y xs,
  Before-weaken x y ys,
  Before-weaken y x xs,
)

tails_same :
    (x : String) (xs ys : List String)
    → Before x xs
    → Before x ys
    → ((w : String) → contains (x ∷ xs) w ≡ contains (x ∷ ys) w)
    → (w : String) → contains xs w ≡ contains ys w
unfolding contains
tails_same x xs ys bx bys same w =
    ground (arith, same w, eq_iff x w, not_contains_of_Before x xs, not_contains_of_Before x ys)

pub IsStrict-unique :
    (xs ys : List String)
    → IsStrict xs
    → IsStrict ys
    → ((w : String) → contains xs w ≡ contains ys w)
    → xs ≡ ys
IsStrict-unique [] [] sx sy same = refl
IsStrict-unique [] (y ∷ ys) sx sy same =
    absurd (unfold contains in ground (arith, same y, eq_refl y))
IsStrict-unique (x ∷ xs) [] sx sy same =
    absurd (unfold contains in ground (arith, same x, eq_refl x))
IsStrict-unique (x ∷ xs) (y ∷ ys) sx sy same =
    let e : x ≡ y = IsStrict-heads x y xs ys sx sy same in
    let same' : (w : String) → contains (x ∷ xs) w ≡ contains (x ∷ ys) w =
      λ w. rw e (rw e at (same w)) in
    ap₂ ◌∷◌ e (IsStrict-unique xs ys sx.1 sy.1 (tails_same x xs ys sx.0 (rw e sy.0) same'))

-- Two inputs that hold the same names give the same sorted list, whatever their order and
-- repetitions.
pub sorted_unique-canonical :
    (xs ys : List String)
    → ((w : String) → contains xs w ≡ contains ys w)
    → sorted_unique xs ≡ sorted_unique ys
sorted_unique-canonical xs ys same =
    IsStrict-unique (sorted_unique xs) (sorted_unique ys) (sorted_unique-IsStrict xs)
      (sorted_unique-IsStrict ys) λ w. simp (contains-sorted_unique, same)

-- ===== src/Base/Names/Order.antt =====
-- Go compares strings by their bytes, which for UTF-8 is by code points: a strict total order.
use Prim.Native.Nat.{Ordering, compare as compare_ℕ}
use Prim.Native.Char.{Char, code}
use Prim.Native.String.{String, [], ◌∷◌, compare, then}
use Prim.Native.String.compare
use mathlib.Core.Path.{◌≡◌, refl}
use mathlib.Core.Logic.{◌⊎◌}
use mathlib.Core.Bool.{Bool, true, false}
use native.Mathlib.Omega.{arith}
use text.Mathlib.TextEquality.{path_by_compare}
use text.Mathlib.TextPositions.{compare_refl}

abbrev pub str_ltb : String → String → Bool
str_ltb s t = elim (compare s t) [ Ordering.lt ↦ true | _ ↦ false ]

abbrev flip : Ordering → Ordering
flip Ordering.lt = Ordering.gt
flip Ordering.eq = Ordering.eq
flip Ordering.gt = Ordering.lt

then-flip :
    (a b : Char) (p q : Ordering)
    → q ≡ flip p
    → then (compare_ℕ (code b) (code a)) q ≡ flip (then (compare_ℕ (code a) (code b)) p)
then-flip a b p q h = ground arith

compare_swap : (s t : String) → compare t s ≡ flip (compare s t)
compare_swap [] [] = refl
compare_swap [] (d ∷ t) = ground (arith, compare.nil-cons d t, compare.cons-nil d t)
compare_swap (c ∷ s) [] = ground (arith, compare.nil-cons c s, compare.cons-nil c s)
compare_swap (c ∷ s) (d ∷ t) =
    rw (compare.cons-cons d c t s, compare.cons-cons c d s t)
      (then-flip c d (compare s t) (compare t s) (compare_swap s t))

pub str_ltb_irrefl : (s : String) → str_ltb s s ≡ false
str_ltb_irrefl s = ground (arith, compare_refl s)

pub str_ltb_total : (s t : String) → str_ltb s t ≡ false → (s ≡ t) ⊎ (str_ltb t s ≡ true)
str_ltb_total s t h = ground (arith, compare_swap s t, path_by_compare s t)

pub str_ltb_asymm : (s t : String) → str_ltb s t ≡ true → str_ltb t s ≡ false
str_ltb_asymm s t h = ground (arith, compare_swap s t)

compare_trans :
    (s t u : String)
    → compare s t ≡ Ordering.lt
    → compare t u ≡ Ordering.lt
    → compare s u ≡ Ordering.lt
compare_trans [] [] u h k = ground (arith, compare.nil-nil)
compare_trans [] (d ∷ t) [] h k = ground (arith, compare.cons-nil d t)
compare_trans [] (d ∷ t) (e ∷ u) h k = compare.nil-cons e u
compare_trans (c ∷ s) [] u h k = ground (arith, compare.cons-nil c s)
compare_trans (c ∷ s) (d ∷ t) [] h k = ground (arith, compare.cons-nil d t)
compare_trans (c ∷ s) (d ∷ t) (e ∷ u) h k = ground (
  arith,
  compare.cons-cons c d s t,
  compare.cons-cons d e t u,
  compare.cons-cons c e s u,
  compare_trans s t u,
)

pub str_ltb_trans : (s t u : String) → str_ltb s t ≡ true → str_ltb t u ≡ true → str_ltb s u ≡ true
str_ltb_trans s t u h k = ground (arith, compare_trans s t u)

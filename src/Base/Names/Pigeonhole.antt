-- ===== src/Base/Names/Pigeonhole.antt =====
-- Lengths of lists without repetitions.
use Prim.Native.Nat.{suc, ◌≤◌}
use Prim.Native.String.{String}
use mathlib.Core.Path.{◌≡◌}
use mathlib.Core.Bool.{true, false}
use mathlib.Core.List.{List, [], ◌∷◌}
use native.Mathlib.Omega.{arith}
use text.Mathlib.Text.{◌==◌ as str_eq}
use text.Mathlib.TextEquality.{eq_iff}
use review.Base.Tests.{if◌then◌else◌}
use review.Base.Lists.{length}
use review.Base.Names.{contains}
use review.Base.Names.Canonical.{IsNodup}

erase_name : String → List String → List String
erase_name v [] = []
erase_name v (x ∷ xs) = if str_eq x v then xs else x ∷ erase_name v xs

length-erase_name :
    (v : String) (xs : List String)
    → contains xs v ≡ true
    → suc (length (erase_name v xs)) ≡ length xs
unfolding erase_name contains
length-erase_name v [] h = cc
length-erase_name v (x ∷ xs) h = ground (arith, length-erase_name v xs)

contains-erase_name :
    (v w : String) (xs : List String)
    → contains xs w ≡ true
    → str_eq v w ≡ false
    → contains (erase_name v xs) w ≡ true
unfolding erase_name contains
contains-erase_name v w [] h ne = cc
contains-erase_name v w (x ∷ xs) h ne =
    ground (arith, contains-erase_name v w xs, eq_iff x v, eq_iff x w, eq_iff v w)

pub nodup_length :
    (xs ys : List String)
    → IsNodup xs
    → ((w : String) → contains xs w ≡ true → contains ys w ≡ true)
    → length xs ≤ length ys
unfolding contains
nodup_length [] ys n h = omega arith
nodup_length (x ∷ xs) ys (n, ns) h =
    let there : contains ys x ≡ true = ground (arith, h x, eq_iff x x) in
    omega (
      arith,
      length-erase_name x ys there,
      nodup_length xs (erase_name x ys) ns
          (λ w k. contains-erase_name x w ys (ground (arith, h w)) (ground (arith, eq_iff x w))),
    )

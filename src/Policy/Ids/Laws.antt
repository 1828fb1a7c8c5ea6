-- ===== src/Policy/Ids/Laws.antt =====
-- What the list validators accept.
use review.Base.{
  ℕ, ◌≤◌, String, true, false, ◌≡◌, ◌↔◌, refl, List, [], ◌∷◌, none, eq_iff, arith, length, All,
}
use review.Base.Names.{contains}
use review.Base.Names.Canonical.{IsNodup}
use review.Policy.Ids.{valid_id, unique_from, unique_strings, check_ids, unique_ids}

-- None of the names is among the earlier ones, and none occurs twice.
abbrev IsFresh : List String → List String → Type 0
IsFresh seen [] = Unit {0}
IsFresh seen (v ∷ vs) = (contains seen v ≡ false) × IsFresh (v ∷ seen) vs

unique_from_iff :
    (name : String) (seen vs : List String)
    → (unique_from name false seen vs ≡ none) ↔ IsFresh seen vs
unfolding unique_from
unique_from_iff name seen [] = (λ h. tt, λ h. refl)
unique_from_iff name seen (v ∷ vs) = (
  λ h. ground (arith, (unique_from_iff name (v ∷ seen) vs).0),
  λ h. ground (arith, (unique_from_iff name (v ∷ seen) vs).1),
)

contains-IsFresh :
    (seen vs : List String) (w : String)
    → IsFresh seen vs
    → contains seen w ≡ true
    → contains vs w ≡ false
unfolding contains
contains-IsFresh seen [] w f h = refl
contains-IsFresh seen (v ∷ vs) w (f, fs) h =
    ground (arith, contains-IsFresh (v ∷ seen) vs w fs, eq_iff v w)

IsFresh-nodup : (seen vs : List String) → IsFresh seen vs → IsNodup vs
unfolding contains
IsFresh-nodup seen [] f = tt
IsFresh-nodup seen (v ∷ vs) (f, fs) =
    ground (arith, IsFresh-nodup (v ∷ seen) vs fs, contains-IsFresh (v ∷ seen) vs v fs, eq_iff v v)

IsFresh-of_nodup :
    (seen vs : List String)
    → IsNodup vs
    → ((w : String) → contains vs w ≡ true → contains seen w ≡ false)
    → IsFresh seen vs
unfolding contains
IsFresh-of_nodup seen [] n h = tt
IsFresh-of_nodup seen (v ∷ vs) (n, ns) h = (
  ground (arith, h v, eq_iff v v),
  IsFresh-of_nodup (v ∷ seen) vs ns λ w. ground (arith, h w, eq_iff v w),
)

unique_strings_iff :
    (name : String) (vs : List String) → (unique_strings name vs false ≡ none) ↔ IsNodup vs
unfolding unique_strings contains
unique_strings_iff name vs = (
  λ h. IsFresh-nodup [] vs ((unique_from_iff name [] vs).0 h),
  λ n. (unique_from_iff name [] vs).1 (IsFresh-of_nodup [] vs n λ w h. refl),
)

check_ids_iff :
    (name : String) (vs : List String)
    → (check_ids name vs ≡ none) ↔ All (λ v. valid_id v ≡ true) vs
unfolding check_ids
check_ids_iff name [] = (λ h. tt, λ h. refl)
check_ids_iff name (v ∷ vs) =
    (λ h. ground (arith, (check_ids_iff name vs).0), λ h. ground (arith, (check_ids_iff name vs).1))

-- A list of identifiers is accepted exactly if its length lies in the bounds, every entry is a
-- valid identifier and none occurs twice.
pub unique_ids_iff :
    (name : String) (vs : List String) (min max : ℕ)
    → (unique_ids name vs min max ≡ none)
      ↔ ((min ≤ length vs) × (length vs ≤ max) × All (λ v. valid_id v ≡ true) vs × IsNodup vs)
unfolding unique_ids
unique_ids_iff name vs min max = (
  λ h. ground (arith, (check_ids_iff name vs).0, (unique_strings_iff name vs).0),
  λ h. ground (arith, (check_ids_iff name vs).1, (unique_strings_iff name vs).1),
)

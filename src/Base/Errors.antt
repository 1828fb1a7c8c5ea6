-- ===== src/Base/Errors.antt =====
-- Go's `error` as a value. A function that returns `error` is an `Option Error`, with `none` for
-- nil; one that returns `(T, error)` and leaves T empty on an error is a `Result T`.
use Prim.Native.String.{String}
use mathlib.Core.Path.{◌≡◌, refl}
use mathlib.Core.Logic.{◌⊎◌, inl, inr}
use mathlib.Core.Bool.{Bool, true, false}
use mathlib.Core.Option.{Option, none, some}
use mathlib.Core.List.{List}

-- `errors.New`, `fmt.Errorf` with its operands, and `fmt.Errorf` with `%w`.
pub data Error : Type 0 where
  new : String → Error
  errorf : String → List String → Error
  wrap : String → Error → Error

-- A sequence of statements that may each `return err`.
infixl 5 ◌>>◌
abbrev pub ◌>>◌ : Option Error → Option Error → Option Error
none >> k = k
some e >> k = some e

-- `if test { return err }`
abbrev pub fail_if : Bool → Error → Option Error
fail_if true e = some e
fail_if false e = none

pub data Result {ℓ} (A : Type ℓ) : Type ℓ where
  ok : A → Result A
  err : Error → Result A

-- `if err := check; err != nil { return T{}, err }`
infixr 5 ◌then_ok◌
abbrev pub ◌then_ok◌ {ℓ} : {A : Type ℓ} → Option Error → Result A → Result A
none then_ok r = r
some e then_ok r = err e

abbrev pub bind {ℓ κ} : {A : Type ℓ} {B : Type κ} → Result A → (A → Result B) → Result B
bind (ok a) f = f a
bind (err e) f = err e

abbrev pub is_nil : Option Error → Bool
is_nil none = true
is_nil (some e) = false

pub >>-eq-none : (m k : Option Error) → (m >> k) ≡ none → (m ≡ none) × (k ≡ none)
>>-eq-none none k h = (refl, h)
>>-eq-none (some e) k h = cc

pub fail_if-eq-none : (b : Bool) (e : Error) → fail_if b e ≡ none → b ≡ false
fail_if-eq-none true e h = cc
fail_if-eq-none false e h = refl

pub Result-cases {ℓ} :
    {A : Type ℓ} (r : Result A) → ((a : A) × (r ≡ ok a)) ⊎ ((e : Error) × (r ≡ err e))
Result-cases (ok a) = inl (a, refl)
Result-cases (err e) = inr (e, refl)

pub bind-eq-ok {ℓ κ} :
    {A : Type ℓ} {B : Type κ} (m : Result A) (f : A → Result B) {b : B}
    → bind m f ≡ ok b
    → (a : A) × (m ≡ ok a) × (f a ≡ ok b)
bind-eq-ok (ok a) f h = (a, refl, h)
bind-eq-ok (err e) f h = cc

-- ===== src/Orchestrator/Action.antt =====
-- Calls that change the world outside of the program and may fail. A world is whatever the callee
-- keeps: the store of the budget authority, the providers, the clock.
use review.Base.{Bool, true, false, Option, none, some, Error, Result, ok, err, ◌≡◌, refl, sym, ap}

abbrev pub Action : Type 0 → Type 0 → Type 0
Action W A = W → W × Result A

abbrev pub continue : {W A B : Type 0} → W × Result A → (A → Action W B) → W × Result B
continue (w, ok a) f = f a w
continue (w, err e) f = (w, err e)

infixl 5 ◌>>=◌ ◌>>◌
abbrev pub ◌>>=◌ : {W A B : Type 0} → Action W A → (A → Action W B) → Action W B
(m >>= f) w = continue (m w) f

abbrev pub ◌>>◌ : {W B : Type 0} → Action W (Unit {0}) → Action W B → Action W B
(m >> k) = m >>= λ _. k

abbrev pub return : {W A : Type 0} → Result A → Action W A
return r w = (w, r)

-- `if test { return err }`
abbrev pub fail : {W : Type 0} → Bool → Error → Action W (Unit {0})
fail true e w = (w, err e)
fail false e w = (w, ok tt)

abbrev pub fail_with : {W : Type 0} → Option Error → Action W (Unit {0})
fail_with (some e) w = (w, err e)
fail_with none w = (w, ok tt)

pub continue-eq-ok :
    {W A B : Type 0} (r : W × Result A) (f : A → Action W B) {v : W} {b : B}
    → continue r f ≡ (v, ok b)
    → (u : W) × (a : A) × (r ≡ (u, ok a)) × (f a u ≡ (v, ok b))
continue-eq-ok (w, ok a) f h = (w, a, refl, h)
continue-eq-ok (w, err e) f h = cc

pub fail-eq-ok :
    {W : Type 0} (b : Bool) (e : Error) (w : W) {v : W} {u : Unit {0}}
    → fail b e w ≡ (v, ok u)
    → (b ≡ false) × (v ≡ w)
fail-eq-ok true e w h = cc
fail-eq-ok false e w h = (refl, ap (λ p. p.0) (sym h))

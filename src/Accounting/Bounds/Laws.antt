-- ===== src/Accounting/Bounds/Laws.antt =====
-- About `NewCatalog` and `Catalog.Quote` of agent/accounting/bounds.go.
use Prim.Native.Char.{nul}
use Prim.Native.String
use review.Base.{
  ℕ, String, true, false, List, [], ◌∷◌, none, ok, ◌≡◌, ◌≢◌, refl, sym, subst, ◌⊎◌, inl, inr, ◌≤◌,
  ◌<◌, arith, All, eq_iff,
}
use review.Base.Int.{ℤ, pos, negsuc, ltb_ℤ, leb_ℤ}
use review.Base.Text.{is_blank}
use review.Base.Names.{contains}
use review.Accounting.Bounds.{
  RouteBound, Catalog, max_duration_ms, route_key, is_unqualified, check_routes, new_catalog,
}

-- A route that may stand in a catalog.
pub record IsQualified (r : RouteBound) : Type 0 where
  pub named : (is_blank r.provider ≡ false) × (is_blank r.model ≡ false)
  pub documented : (r.version ≢ "") × (r.evidence_ref ≢ "") × (r.currency ≢ "")
  pub input : (k : ℕ) × (r.input_hard_limit ≡ pos k) × (0 < k)
  pub output : (k : ℕ) × (r.output_hard_limit ≡ pos k) × (0 < k)
  pub input_price : (k : ℕ) × (r.input_micro_per_million ≡ pos k)
  pub output_price : (k : ℕ) × (r.output_micro_per_million ≡ pos k)
  pub fixed : (k : ℕ) × (r.fixed_micro ≡ pos k)
  pub active : (k : ℕ) × (r.max_active_ms ≡ pos k) × (0 < k) × (k ≤ max_duration_ms)
  pub bounded : r.all_output_bounded ≡ true
  pub window : (0 < r.valid_from) × (r.valid_from < r.valid_until)

pos_of : (z : ℤ) → leb_ℤ z (pos 0) ≡ false → (k : ℕ) × (z ≡ pos k) × (0 < k)
pos_of (pos n) h = (n, refl, ground arith)
pos_of (negsuc n) h = absurd (ground arith)

nonneg_of : (z : ℤ) → ltb_ℤ z (pos 0) ≡ false → (k : ℕ) × (z ≡ pos k)
nonneg_of (pos n) h = (n, refl)
nonneg_of (negsuc n) h = absurd (ground arith)

active_of :
    (z : ℤ)
    → leb_ℤ z (pos 0) ≡ false
    → ltb_ℤ (pos max_duration_ms) z ≡ false
    → (k : ℕ) × (z ≡ pos k) × (0 < k) × (k ≤ max_duration_ms)
active_of (pos n) h g = (n, refl, ground arith, ground arith)
active_of (negsuc n) h g = absurd (ground arith)

is_unqualified-IsQualified : (r : RouteBound) → is_unqualified r ≡ false → IsQualified r
unfolding is_unqualified
is_unqualified-IsQualified r h = record {
  named = ground arith;
  documented = (
    ground (arith, eq_iff r.version ""),
    ground (arith, eq_iff r.evidence_ref ""),
    ground (arith, eq_iff r.currency ""),
  );
  input = pos_of r.input_hard_limit (ground arith);
  output = pos_of r.output_hard_limit (ground arith);
  input_price = nonneg_of r.input_micro_per_million (ground arith);
  output_price = nonneg_of r.output_micro_per_million (ground arith);
  fixed = nonneg_of r.fixed_micro (ground arith);
  active = active_of r.max_active_ms (ground arith) (ground arith);
  bounded = ground arith;
  window = ground arith;
}

-- Another route for the same provider and model.
abbrev pub Serves : String → String → List RouteBound → Type 0
Serves provider model [] = ⊥
Serves provider model (r ∷ rs) =
    ((r.provider ≡ provider) × (r.model ≡ model)) ⊎ Serves provider model rs

abbrev pub IsUnique : List RouteBound → Type 0
IsUnique [] = Unit
IsUnique (r ∷ rs) = (Serves r.provider r.model rs → ⊥) × IsUnique rs

seen-Serves :
    (seen : List String) (rs : List RouteBound) (p m : String)
    → check_routes seen rs ≡ none
    → contains seen (String.◌++◌ p (String.◌∷◌ nul m)) ≡ true
    → Serves p m rs
    → ⊥
unfolding check_routes contains
seen-Serves seen [] p m h c s = s
seen-Serves seen (r ∷ rs) p m h c (inl (a, b)) = let e = (rw (← a, ← b) at c) in ground arith
seen-Serves seen (r ∷ rs) p m h c (inr s) =
    let h' : check_routes (route_key r ∷ seen) rs ≡ none = ground arith in
    seen-Serves (route_key r ∷ seen) rs p m h' (ground arith) s

check_routes-IsUnique :
    (seen : List String) (rs : List RouteBound)
    → check_routes seen rs ≡ none
    → All IsQualified rs × IsUnique rs
unfolding check_routes contains
check_routes-IsUnique seen [] h = (tt, tt)
check_routes-IsUnique seen (r ∷ rs) h =
    let h' : check_routes (route_key r ∷ seen) rs ≡ none = ground arith in
    let (q, u) = check_routes-IsUnique (route_key r ∷ seen) rs h' in
    (
      (is_unqualified-IsQualified r (ground arith), q),
      (
        λ s.
            seen-Serves (route_key r ∷ seen) rs r.provider r.model h'
              (ground (arith, (eq_iff (route_key r) (route_key r)).1 refl)) s,
        u,
      ),
    )

-- A catalog that is accepted holds exactly the routes given: each is qualified, and no two serve the
-- same model of the same provider.
pub new_catalog-IsUnique :
    (rs : List RouteBound) {c : Catalog}
    → new_catalog rs ≡ ok c
    → (c.routes ≡ rs) × All IsQualified c.routes × IsUnique c.routes
unfolding new_catalog
new_catalog-IsUnique rs {c} h =
    let (q, u) = check_routes-IsUnique [] rs (ground arith) in
    let e : rs ≡ c.routes = ground arith in (sym e, subst (All IsQualified) e q, subst IsUnique e u)

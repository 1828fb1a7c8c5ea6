-- ===== src/Policy/Validate/Laws.antt =====
-- About the documents that `Validate` of agent/policy/validate.go accepts.
use review.Base.{
  String, true, false, ◌≡◌, ◌≢◌, refl, List, [], ◌∷◌, map, eq_iff, arith, none, Result, ok, err,
}
use review.Base.Int.{pos, eqb_ℤ_iff}
use review.Base.Names.{contains}
use review.Base.Names.Canonical.{IsNodup}
use review.Policy.Schema.{MethodPack, ReviewConfig}
use review.Policy.Inheritance.{expand_packs}
use review.Policy.Validate.{
  check_capabilities, check_packs, validate_quality_gate, validate, return_error,
}

check_capabilities-allowed :
    (allowed required : List String) (w : String)
    → check_capabilities allowed required ≡ none
    → contains required w ≡ true
    → contains allowed w ≡ true
unfolding check_capabilities contains
check_capabilities-allowed allowed [] w h k = cc
check_capabilities-allowed allowed (r ∷ rs) w h k =
    ground (arith, check_capabilities-allowed allowed rs w, eq_iff r w)

abbrev pack_ids : List MethodPack → List String
pack_ids = map (λ (p : MethodPack). p.id)

-- No pack of the list has a name that was seen before it.
check_packs-IsNodup :
    (c : ReviewConfig) (seen : List String) (packs : List MethodPack)
    → check_packs c seen packs ≡ none
    → IsNodup (pack_ids packs)
      × ((w : String) → contains seen w ≡ true → contains (pack_ids packs) w ≡ false)
unfolding check_packs contains
check_packs-IsNodup c seen [] h = (tt, λ w k. refl)
check_packs-IsNodup c seen (p ∷ ps) h =
    let (n, fresh) = check_packs-IsNodup c (p.id ∷ seen) ps (ground arith) in
    (
      (ground (arith, fresh p.id, eq_iff p.id p.id), n),
      λ w k. ground (arith, fresh w, eq_iff p.id w),
    )

-- What holds of a document that validates.
pub record IsValid (c : ReviewConfig) : Type 0 where
  pub version : c.schema_version ≡ pos 2
  pub packs : IsNodup (pack_ids c.packs)
  pub capabilities :
      (w : String)
      → contains c.capabilities.required w ≡ true
      → contains c.capabilities.allowed w ≡ true
  pub coverage : c.defaults.gate_mode ≡ "blocking" → c.quality_gate.required_coverage ≢ []
  pub own_context : contains c.quality_gate.required_coverage c.quality_gate.context_name ≡ false
  pub expandable : c.pack_refs ≡ [] → (packs : List MethodPack) × (expand_packs c.packs ≡ ok packs)

gate_parts :
    (c : ReviewConfig)
    → validate_quality_gate c.quality_gate c.defaults.gate_mode ≡ none
    → (c.defaults.gate_mode ≡ "blocking" → c.quality_gate.required_coverage ≢ [])
      × (contains c.quality_gate.required_coverage c.quality_gate.context_name ≡ false)
unfolding validate_quality_gate
gate_parts c h = (λ b n. ground (arith, eq_iff c.defaults.gate_mode "blocking"), ground arith)

ok_of_return_error : {A : Type 0} (r : Result A) → return_error r ≡ none → (a : A) × (r ≡ ok a)
ok_of_return_error (ok a) h = (a, refl)
ok_of_return_error (err e) h = cc

-- A document that validates has the supported version, packs of distinct names that expand if none is
-- left to resolve, required capabilities that are allowed, and a gate that asks for coverage if it
-- blocks and never for its own context.
pub validate-IsValid : (c : ReviewConfig) → validate c ≡ none → IsValid c
unfolding validate
validate-IsValid c h =
    let packs : check_packs c [] c.packs ≡ none = ground arith in
    let gate : validate_quality_gate c.quality_gate c.defaults.gate_mode ≡ none = ground arith in
    let capabilities : check_capabilities c.capabilities.allowed c.capabilities.required ≡ none =
      ground arith in
    record {
      version = ground (arith, eqb_ℤ_iff c.schema_version (pos 2));
      packs = (check_packs-IsNodup c [] c.packs packs).0;
      capabilities = λ w.
          check_capabilities-allowed c.capabilities.allowed c.capabilities.required w capabilities;
      coverage = (gate_parts c gate).0;
      own_context = (gate_parts c gate).1;
      expandable = λ r. ok_of_return_error (expand_packs c.packs) (ground arith);
    }

-- ===== src/Pipeline/CiGate/Laws.antt =====
-- About `EvaluateImportedCIGate` of agent/pipeline/ci_gate.go.
use review.Base.{
  String, true, false, ◌&&◌, ◌≡◌, ◌≢◌, ◌⊎◌, inl, inr, refl, sym, ◌∙◌, ap, List, [], ◌∷◌, ◌++◌, map,
  str_eq, eq_iff, arith, Option, none, some, Option-cases, Bool-cases, Result-cases, ok, err, any,
  Error,
}
use review.Base.Names.{contains, sorted_copy}
use review.Base.Names.Membership.{contains-sorted_copy, not_contains_of_empty}
use review.Base.Time.{Time}
use review.Review.Check.{Check, satisfied, validate_check, CoverageProjection}
use review.Review.Check.Laws.{validate_check_iff}
use review.Review.Gate.{AssessmentProjection, GateResult, pass}
use review.Review.CiEvidence.{ImportedCiQualityEvidence, validate_evidence}
use review.Policy.Schema.{lookup, EffectivePolicy}
use review.Policy.Baseline.{BaselineRef}
use review.Policy.Findings.{GateFinding}
use review.Policy.Coverage.Laws.{violates}
use review.Policy.Gate.{GateInput, evaluate_quality_gate}
use review.Policy.Gate.Evaluation.{Passes, gate_pass_iff}
use review.Pipeline.CiGate.{
  CheckMap, signal_finding, with_required, admit_evidence, collect_evidence, keys, is_open,
  open_ids, checks_at, ids_of, coverage_of, build_ci_gate_inputs, downgrade, gate_or_zero,
  evaluate_imported_ci_gate,
}

pub contains-keys : (ids : List String) (w : String) → contains (keys ids) w ≡ contains ids w
unfolding keys contains
contains-keys [] w = refl
contains-keys (id ∷ ids) w = ground (arith, contains-keys ids w, contains-keys ids id, eq_iff id w)

contains-open_ids :
    (checks : CheckMap) (ids : List String) (w : String)
    → contains (open_ids checks ids) w ≡ (contains ids w && is_open (lookup w checks))
unfolding open_ids contains
contains-open_ids checks [] w = refl
contains-open_ids checks (id ∷ ids) w = elim (Bool-cases (str_eq id w)) [
  | inl e ↦ rw (← (eq_iff id w).0 e) (ground (arith, contains-open_ids checks ids id, eq_iff id id))
  | inr e ↦ ground (arith, contains-open_ids checks ids w)
]

pub contains-ids_of :
    (checks : CheckMap) (w : String) {c : Check}
    → lookup w checks ≡ some c
    → contains (ids_of checks) w ≡ true
unfolding lookup contains
contains-ids_of [] w h = cc
contains-ids_of ((id, c') ∷ checks) w {c} h = elim (Bool-cases (str_eq id w)) [
  | inl e ↦ ground arith
  | inr e ↦ ground (arith, contains-ids_of checks w {c = c} (ground arith))
]

any-checks_at :
    (checks : CheckMap) (ids : List String) (w : String) {c : Check}
    → contains ids w ≡ true
    → lookup w checks ≡ some c
    → violates w c ≡ true
    → any (violates w) (checks_at checks ids) ≡ true
unfolding checks_at contains
any-checks_at checks [] w k h v = cc
any-checks_at checks (id ∷ ids) w {c} k h v = elim (Bool-cases (str_eq id w)) [
  | inl e ↦ rw ((eq_iff id w).0 e) (rw (h, checks_at) (ground arith))
  | inr e ↦
      let rest = any-checks_at checks ids w (ground arith) h v in
      elim (Option-cases (lookup id checks)) [
        | inl n ↦ rw (n, checks_at) rest
        | inr (c', s) ↦ rw (s, checks_at) (ground arith)
      ]
]

-- The check comes from a piece of evidence that validates.
abbrev From : List String → String → Check → List ImportedCiQualityEvidence → Type 0
From required w c [] = ⊥
From required w c (e ∷ es) =
    ((validate_evidence e ≡ none) × (e.check.id ≡ w) × (with_required required e.check ≡ c))
    ⊎ From required w c es

admitted_valid :
    (checks : CheckMap) (e : ImportedCiQualityEvidence)
    → admit_evidence checks e ≡ none
    → validate_evidence e ≡ none
unfolding admit_evidence
admitted_valid checks e h = ground arith

first_From :
    (required : List String) (checks : CheckMap) (e : ImportedCiQualityEvidence)
    (es : List ImportedCiQualityEvidence) (w : String) (c : Check)
    → validate_evidence e ≡ none
    → lookup w ((e.check.id, with_required required e.check) ∷ checks) ≡ some c
    → (lookup w checks ≡ some c) ⊎ From required w c (e ∷ es)
unfolding lookup
first_From required checks e es w c v l = elim (Bool-cases (str_eq e.check.id w)) [
  | inl q ↦ inr (inl (v, (eq_iff e.check.id w).0 q, ground arith))
  | inr q ↦ inl (ground arith)
]

collect_evidence-From :
    (required : List String) (checks : CheckMap) (findings : List GateFinding)
    (evidence : List ImportedCiQualityEvidence) (w : String) (c : Check)
    {r : CheckMap × List GateFinding}
    → collect_evidence required checks findings evidence ≡ ok r
    → lookup w r.0 ≡ some c
    → (lookup w checks ≡ some c) ⊎ From required w c evidence
unfolding collect_evidence
collect_evidence-From required checks findings [] w c {r} h l =
    let eq : (checks, findings) ≡ r = ground arith in inl (rw (← eq) at l)
collect_evidence-From required checks findings (e ∷ es) w c {r} h l =
    elim (Option-cases (admit_evidence checks e)) [
      | inr (er, a) ↦ absurd (let k = (rw a at h) in cc)
      | inl a ↦
          let found =
            collect_evidence-From required ((e.check.id, with_required required e.check) ∷ checks)
              (findings ++ map (signal_finding e.check) e.signals) es w c (rw a at h) l in
          elim found [
            | inr later ↦ inr (inr later)
            | inl here ↦ first_From required checks e es w c (admitted_valid checks e a) here
          ]
    ]

-- The coverage of a gate that is complete: every required check was found and is closed.
complete_closed :
    (required : List String) (checks : CheckMap) (w : String)
    → (coverage_of required checks).complete ≡ true
    → contains required w ≡ true
    → is_open (lookup w checks) ≡ false
unfolding coverage_of
complete_closed required checks w h k =
    let none_open = not_contains_of_empty (sorted_copy (open_ids checks (keys required))) w h in
    ground (
      arith,
      none_open,
      contains-sorted_copy (open_ids checks (keys required)) w,
      contains-open_ids checks (keys required) w,
      contains-keys required w,
    )

not_violated :
    (required : List String) (checks : CheckMap) (w : String) (c : Check)
    → any (violates w) (coverage_of required checks).checks ≡ false
    → lookup w checks ≡ some c
    → violates w c ≡ false
unfolding coverage_of
not_violated required checks w c h l = ground (
  arith,
  any-checks_at checks (sorted_copy (ids_of checks)) w {c = c},
  contains-sorted_copy (ids_of checks) w,
  contains-ids_of checks w l,
  l,
)

check_of_evidence :
    (e : ImportedCiQualityEvidence) → validate_evidence e ≡ none → validate_check e.check ≡ none
unfolding validate_evidence
check_of_evidence e h = ground arith

-- A valid check that is closed and not violated is satisfied.
satisfied_of_closed :
    (required : List String) (e : ImportedCiQualityEvidence) (w : String) (c : Check)
    → validate_evidence e ≡ none
    → e.check.id ≡ w
    → with_required required e.check ≡ c
    → is_open (some c) ≡ false
    → violates w c ≡ false
    → e.check.status ≡ satisfied
satisfied_of_closed required e w c v i q o n =
    let s = ((validate_check_iff e.check).0 (check_of_evidence e v)).4 in
    let n' = rw (← q) at n in let o' = rw (← q) at o in ground (arith, s, eq_iff e.check.id w)

-- Some piece of the evidence validates and satisfies the check.
abbrev pub Backed : String → List ImportedCiQualityEvidence → Type 0
Backed w [] = ⊥
Backed w (e ∷ es) =
    ((validate_evidence e ≡ none) × (e.check.id ≡ w) × (e.check.status ≡ satisfied)) ⊎ Backed w es

Backed-of_From :
    (required : List String) (evidence : List ImportedCiQualityEvidence) (w : String) (c : Check)
    → is_open (some c) ≡ false
    → violates w c ≡ false
    → From required w c evidence
    → Backed w evidence
Backed-of_From required [] w c o n f = f
Backed-of_From required (e ∷ es) w c o n (inl (v, i, q)) =
    inl (v, i, satisfied_of_closed required e w c v i q o n)
Backed-of_From required (e ∷ es) w c o n (inr f) = inr (Backed-of_From required es w c o n f)

no_entry : (w : String) (c : Check) → lookup {V = Check} w [] ≢ some c
unfolding lookup
no_entry w c h = cc

module _ (effective : EffectivePolicy) (assessment : AssessmentProjection) (digest : String)
    (evidence : List ImportedCiQualityEvidence) (baseline : Option BaselineRef)
    (evaluated_at : Time) where
  abbrev required_of : List String
  required_of = effective.quality_gate.required_coverage

  abbrev input_of : CoverageProjection → List GateFinding → GateInput
  input_of coverage findings = record {
    assessment = downgrade coverage assessment;
    assessment_digest = digest;
    coverage = coverage;
    findings = findings;
    baseline = baseline;
    evaluated_at = evaluated_at;
  }

  gate_or_zero-ok :
      (g : GateResult × Option Error)
      → (gate_or_zero g).1 ≡ none
      → (g.1 ≡ none) × ((gate_or_zero g).0 ≡ g.0)
  gate_or_zero-ok (gate, none) h = (refl, refl)
  gate_or_zero-ok (gate, some e) h = cc

  Backed-of_passes :
      (checks : CheckMap) (findings : List GateFinding) (w : String)
      → collect_evidence required_of [] [] evidence ≡ ok (checks, findings)
      → Passes effective (input_of (coverage_of required_of checks) findings)
      → w ≢ ""
      → contains required_of w ≡ true
      → Backed w evidence
  Backed-of_passes checks findings w h p ne k =
      let closed = complete_closed required_of checks w p.covered k in
      elim (Option-cases (lookup w checks)) [
        | inl n ↦ absurd (ground arith)
        | inr (c, l) ↦ elim (collect_evidence-From required_of [] [] evidence w c h l) [
          | inl q ↦ absurd (no_entry w c q)
          | inr f ↦
              Backed-of_From required_of evidence w c (ground arith)
                (not_violated required_of checks w c (p.satisfied w ne k) l) f
        ]
      ]

  abbrev run : CoverageProjection × GateResult × Option Error
  run = evaluate_imported_ci_gate effective assessment digest evidence baseline evaluated_at

  run_of_collected :
      (checks : CheckMap) (findings : List GateFinding)
      → collect_evidence required_of [] [] evidence ≡ ok (checks, findings)
      → let g =
          gate_or_zero (
            evaluate_quality_gate effective (input_of (coverage_of required_of checks) findings)) in
        (run.2 ≡ g.1) × (run.1 ≡ g.0)
  unfolding evaluate_imported_ci_gate build_ci_gate_inputs
  run_of_collected checks findings h = (
    rw (h, evaluate_imported_ci_gate, build_ci_gate_inputs) refl,
    rw (h, evaluate_imported_ci_gate, build_ci_gate_inputs) refl,
  )

  run_of_rejected :
      (e : Error) → collect_evidence required_of [] [] evidence ≡ err e → run.2 ≡ some e
  unfolding evaluate_imported_ci_gate build_ci_gate_inputs
  run_of_rejected e h = rw (h, evaluate_imported_ci_gate, build_ci_gate_inputs) refl

  -- If the gate on imported CI evidence passes without error, every check that it requires, of a name
  -- that is not empty, is satisfied by a piece of evidence that validates.
  pub ci_gate_pass-Backed :
      (evaluate_imported_ci_gate effective assessment digest evidence baseline evaluated_at).2
        ≡ none
      → (evaluate_imported_ci_gate effective assessment digest evidence baseline
          evaluated_at).1.outcome
        ≡ pass
      → (w : String) → w ≢ ""
      → contains effective.quality_gate.required_coverage w ≡ true
      → Backed w evidence
  ci_gate_pass-Backed h o w ne k =
      elim (Result-cases (collect_evidence required_of [] [] evidence)) [
        | inr (e, a) ↦ absurd (let z = sym (run_of_rejected e a) ∙ h in cc)
        | inl ((checks, findings), a) ↦
            let input = input_of (coverage_of required_of checks) findings in
            let eqs = run_of_collected checks findings a in
            let (fine, same) =
              gate_or_zero-ok (evaluate_quality_gate effective input) (sym eqs.0 ∙ h) in
            let passed = ap (λ (r : GateResult). r.outcome) (sym (eqs.1 ∙ same)) ∙ o in
            Backed-of_passes checks findings w a ((gate_pass_iff effective input fine).0 passed) ne
              k
      ]

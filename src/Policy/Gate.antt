-- ===== src/Policy/Gate.antt =====
-- agent/policy/gate.go: the quality gate.
pub mod Obligations
pub mod Evaluation
pub mod ExitCode
pub mod Tests
use review.Base.{
  ℕ, String, Bool, true, false, not, ◌||◌, ◌&&◌, Option, none, some, List, [], ◌∷◌, ◌++◌, str_eq,
  Error, new, wrap, ◌>>◌, fail_if, if◌then◌else◌, is_empty, ltb,
}
use review.Base.Text.{is_blank}
use review.Base.Names.{contains, sorted_unique}
use review.Base.Time.{Time, is_zero}
use review.Review.Check.{
  Check, CheckStatus, pending, running, unknown, violated, CoverageProjection,
}
use review.Review.Gate.{
  AssessmentProjection, is_complete, validate_assessment, GateMode, advisory, blocking, GateOutcome,
  pass, violations, incomplete, error, GateResult, validate_gate_result,
}
use review.Policy.Schema.{QualityGate, EffectivePolicy}
use review.Policy.Baseline.{BaselineRef, validate_baseline}
use review.Policy.Coverage.{missing_required_coverage, violated_required_coverage}
use review.Policy.Findings.{GateFinding, matching_violations}

pub record GateInput : Type 0 where
  pub assessment : AssessmentProjection
  pub assessment_digest : String
  pub coverage : CoverageProjection
  pub findings : List GateFinding
  pub baseline : Option BaselineRef
  pub evaluated_at : Time

-- `review.GateMode(s)`, a conversion that changes no byte
abbrev pub to_gate_mode : String → GateMode
to_gate_mode s =
    if str_eq s "advisory"
    then advisory
    else if str_eq s "blocking"
    then blocking
    else GateMode.other s

-- The fields that are filled before any test.
abbrev pub initial_result : EffectivePolicy → GateInput → GateResult
initial_result effective input = record {
  assessment_id = input.assessment.id;
  assessment_version = input.assessment.version;
  assessment_digest = input.assessment_digest;
  policy_digest = effective.digest;
  mode = to_gate_mode effective.gate_mode;
  outcome = GateOutcome.other "";
  violated_rule_ids = [];
  unknown_obligation_ids = [];
  evidence_refs = [];
  evaluated_at = input.evaluated_at;
}

abbrev pub wrap_error : String → Option Error → Option Error
wrap_error text none = none
wrap_error text (some e) = some (wrap text e)

-- The tests that end the evaluation before anything is computed.
unfoldable pub admit_gate : EffectivePolicy → GateInput → Option Error
admit_gate effective input = do
  fail_if
      (is_blank effective.digest || is_blank input.assessment_digest || is_zero input.evaluated_at)
      (new "policy: gate evaluation requires policy, assessment digest and evaluation time")
  fail_if (not (str_eq input.assessment.policy_digest effective.digest))
      (new "policy: assessment was not produced under the effective policy")
  wrap_error "policy: invalid gate assessment" (validate_assessment input.assessment input.coverage)

abbrev pub is_none : Option Error → Bool
is_none none = true
is_none (some e) = false

unfoldable pub unknown_obligations : EffectivePolicy → GateInput → List String
unknown_obligations effective input =
    let unknown_ids =
      missing_required_coverage effective.quality_gate.required_coverage input.coverage in
    sorted_unique (
      if is_none (validate_baseline effective input.baseline)
      then unknown_ids
      else unknown_ids ++ "baseline" ∷ [])

unfoldable pub violated_rules : EffectivePolicy → GateInput → List String
violated_rules effective input = sorted_unique (
    (matching_violations effective.quality_gate input.findings input.baseline
      (is_none (validate_baseline effective input.baseline))).0
    ++ violated_required_coverage effective.quality_gate.required_coverage input.coverage)

unfoldable pub decide_outcome : GateInput → List String → List String → GateOutcome
decide_outcome input unknown_ids violated_ids =
    if not (is_complete input.assessment.completeness)
      || not input.coverage.complete
      || not (is_empty unknown_ids)
    then incomplete
    else if not (is_empty violated_ids)
    then violations
    else pass

-- The result before it is validated.
unfoldable pub gate_result : EffectivePolicy → GateInput → GateResult
gate_result effective input =
    let unknown_ids = unknown_obligations effective input in
    let violated_ids = violated_rules effective input in
    let start = initial_result effective input in
    record start {
      outcome = decide_outcome input unknown_ids violated_ids;
      violated_rule_ids = violated_ids;
      unknown_obligation_ids = unknown_ids;
      evidence_refs =
          (matching_violations effective.quality_gate input.findings input.baseline
            (is_none (validate_baseline effective input.baseline))).1;
    }

-- `GateResult{}`
abbrev pub zero_result : GateResult
zero_result = record {
  assessment_id = "";
  assessment_version = 0;
  assessment_digest = "";
  policy_digest = "";
  mode = GateMode.other "";
  outcome = GateOutcome.other "";
  violated_rule_ids = [];
  unknown_obligation_ids = [];
  evidence_refs = [];
  evaluated_at = 0;
}

finish_gate : GateResult → CoverageProjection → GateResult × Option Error
finish_gate result coverage = elim (validate_gate_result result coverage) [
  | none ↦ (result, none)
  | some e ↦ (zero_result, some (wrap "policy: invalid gate result" e))
]

-- `EvaluateQualityGate`
unfoldable pub evaluate_quality_gate : EffectivePolicy → GateInput → GateResult × Option Error
unfolding finish_gate
evaluate_quality_gate effective input = elim (admit_gate effective input) [
  | some e ↦ (initial_result effective input, some e)
  | none ↦ finish_gate (gate_result effective input) input.coverage
]

abbrev is_pass : GateOutcome → Bool
is_pass pass = true
is_pass _ = false

abbrev is_incomplete : GateOutcome → Bool
is_incomplete incomplete = true
is_incomplete _ = false

abbrev is_error : GateOutcome → Bool
is_error error = true
is_error _ = false

abbrev is_violations : GateOutcome → Bool
is_violations violations = true
is_violations _ = false

abbrev is_blocking : GateMode → Bool
is_blocking blocking = true
is_blocking _ = false

abbrev is_advisory : GateMode → Bool
is_advisory advisory = true
is_advisory _ = false

-- `GateExitCode`
unfoldable pub gate_exit_code : GateResult → ℕ
gate_exit_code result =
    if is_pass result.outcome
    then 0
    else if is_incomplete result.outcome || is_error result.outcome
    then 2
    else if is_blocking result.mode && is_violations result.outcome
    then 1
    else if is_advisory result.mode && is_violations result.outcome
    then 0
    else 2

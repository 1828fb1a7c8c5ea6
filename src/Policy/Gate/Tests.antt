-- ===== src/Policy/Gate/Tests.antt =====
-- A gate over one required check, evaluated on a complete assessment, and its parts.
use review.Base.{String, true, false, ◌≡◌, ◌≢◌, ◌↔◌, ◌⊎◌, refl, List, [], ◌∷◌, none, some}
use review.Base.Int.{pos}
use review.Base.Text.{is_blank}
use review.Base.Names.{contains, sorted_unique, nonempty_keys, sorted_copy, insert_sorted}
use review.Review.Check.{Check, satisfied, CoverageProjection}
use review.Review.Gate.{
  AssessmentCompleteness, pass, violations, validate_assessment, validate_gate_result,
}
use review.Review.Gate.Laws.{IsKnownMode}
use review.Policy.Schema.{EffectivePolicy}
use review.Policy.Baseline.{BaselineRef, validate_baseline, same_set}
use review.Policy.Coverage.{missing_required_coverage, violated_required_coverage, status_of}
use review.Policy.Findings.{GateFinding, counts, matching_violations, severity_rank, strength_rank}
use review.Policy.Gate.{
  GateInput, admit_gate, gate_result, decide_outcome, unknown_obligations, violated_rules,
  evaluate_quality_gate, gate_exit_code, to_gate_mode,
}
use review.Policy.Gate.Evaluation.{Passes, gate_pass_iff, evaluate_succeeds_iff}
use review.Policy.Gate.ExitCode.{Reads, gate_exit_code-Reads}
use review.Policy.Compile.Tests.{limits}

abbrev pub policy : EffectivePolicy
policy = record {
  schema_version = pos 2;
  digest = "sha256:1";
  methods = [];
  required_checks = "unit" ∷ [];
  risk_floor = "none";
  independent_review = false;
  publication = record {
    mode = "none";
    artifact_classes = [];
    manual_required = false;
    artifact_classes_restricted = false;
  };
  gate_mode = "blocking";
  quality_gate = record {
    rule_ids = [];
    required_coverage = "unit" ∷ [];
    min_severity = "high";
    min_strength = "human_check";
    baseline_mode = "new";
    context_name = "7review";
  };
  allowed_tools = [];
  required_tools = [];
  limits = limits;
  operator_ceilings = none;
  matched_packs = [];
  explanation = [];
  documents = [];
  rules = [];
}

abbrev unit_check : Check
unit_check = record {
  id = "unit";
  method_id = "ci";
  scope = "project";
  required = true;
  applicability_reason = "always";
  status = satisfied;
  evidence_refs = "ci:1" ∷ [];
  status_reason = "";
}

abbrev coverage : CoverageProjection
coverage = record { checks = unit_check ∷ []; complete = true; unknown_check_ids = [] }

abbrev pub baseline : BaselineRef
baseline = record {
  assessment_id = "a0";
  policy_digest = "sha256:1";
  context_name = "7review";
  rule_ids = [];
  coverage_ids = "unit" ∷ [];
  finding_keys = "old" ∷ [];
  verified = true;
}

abbrev finding : String → String → GateFinding
finding key severity = record {
  key = key;
  rule_id = "sql";
  severity = severity;
  strength = "confirmed";
  evidence_refs = "e:1" ∷ [];
  in_changed_scope = true;
  validated = true;
}

abbrev input_of : List GateFinding → GateInput
input_of findings = record {
  assessment = record {
    id = "a1";
    version = 1;
    purpose = "assessment";
    snapshot_digest = "sha256:2";
    policy_digest = "sha256:1";
    completeness = AssessmentCompleteness.complete;
    risk = "low";
    stop_reason = "";
    finding_ids = [];
    evidence_refs = [];
    created_at = 10;
  };
  assessment_digest = "sha256:3";
  coverage = coverage;
  findings = findings;
  baseline = some baseline;
  evaluated_at = 20;
}

-- A known finding and one too mild.
abbrev pub quiet : GateInput
quiet = input_of (finding "old" "critical" ∷ finding "new" "low" ∷ [])

quiet_passes :
    ((evaluate_quality_gate policy quiet).1 ≡ none)
    × ((evaluate_quality_gate policy quiet).0.outcome ≡ pass)
unfolding evaluate_quality_gate admit_gate validate_assessment validate_gate_result is_blank
    gate_result decide_outcome unknown_obligations violated_rules matching_violations counts
    severity_rank strength_rank contains missing_required_coverage violated_required_coverage
    status_of validate_baseline same_set sorted_unique nonempty_keys sorted_copy insert_sorted
quiet_passes = (refl, refl)

loud_fails :
    ((evaluate_quality_gate policy (input_of (finding "new" "high" ∷ []))).0.outcome ≡ violations)
    × (gate_exit_code (evaluate_quality_gate policy (input_of (finding "new" "high" ∷ []))).0 ≡ 1)
unfolding evaluate_quality_gate admit_gate validate_assessment validate_gate_result is_blank
    gate_result decide_outcome unknown_obligations violated_rules matching_violations counts
    severity_rank strength_rank contains missing_required_coverage violated_required_coverage
    status_of validate_baseline same_set sorted_unique nonempty_keys sorted_copy insert_sorted
    gate_exit_code
loud_fails = (refl, refl)

gate_pass_iff_example :
    ((evaluate_quality_gate policy quiet).0.outcome ≡ pass) ↔ Passes policy quiet
gate_pass_iff_example = gate_pass_iff policy quiet quiet_passes.0

evaluate_succeeds_iff_example : ((evaluate_quality_gate policy quiet).1 ≡ none) ↔ (
    (admit_gate policy quiet ≡ none)
    × IsKnownMode (to_gate_mode policy.gate_mode)
    × ((quiet.assessment.completeness ≡ AssessmentCompleteness.complete)
        ⊎ ((quiet.coverage.complete ≡ false) ⊎ (unknown_obligations policy quiet ≢ []))))
evaluate_succeeds_iff_example = evaluate_succeeds_iff policy quiet

gate_exit_code-Reads_example : Reads (evaluate_quality_gate policy quiet).0
gate_exit_code-Reads_example = gate_exit_code-Reads policy quiet quiet_passes.0

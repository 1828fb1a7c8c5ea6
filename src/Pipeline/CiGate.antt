-- ===== src/Pipeline/CiGate.antt =====
-- agent/pipeline/ci_gate.go: `buildCIGateInputs` and `EvaluateImportedCIGate`.
-- A map from check IDs is a list of entries, read by key; its order is lost when the IDs are sorted.
pub mod Laws
mod Tests
use review.Base.{
  String, Bool, true, false, not, ◌||◌, ◌&&◌, List, [], ◌∷◌, ◌++◌, map, if◌then◌else◌, is_empty,
  Option, none, some, Error, errorf, wrap, ◌>>◌, fail_if, Result, ok, err, bind, ◌then_ok◌,
}
use review.Base.Time.{Time}
use review.Base.Names.{contains, sorted_copy}
use review.Review.Check.{
  Check, CheckStatus, pending, running, unknown, not_applicable, CoverageProjection,
}
use review.Review.Gate.{
  AssessmentCompleteness, partial, complete, is_complete, AssessmentProjection, GateResult,
}
use review.Review.CiProvenance.{wrap_error}
use review.Review.CiEvidence.{CiQualitySignal, ImportedCiQualityEvidence, validate_evidence}
use review.Policy.Schema.{lookup, EffectivePolicy}
use review.Policy.Triggers.{has_key}
use review.Policy.Baseline.{BaselineRef}
use review.Policy.Findings.{GateFinding}
use review.Policy.Gate.{GateInput, zero_result, evaluate_quality_gate}

abbrev pub CheckMap : Type 0
CheckMap = List (String × Check)

abbrev pub signal_finding : Check → CiQualitySignal → GateFinding
signal_finding check signal = record {
  key = signal.key;
  rule_id = signal.rule_id;
  severity = signal.severity;
  strength = signal.strength;
  evidence_refs = check.evidence_refs;
  in_changed_scope = signal.in_changed_scope;
  validated = true;
}

-- `check.Required = required[check.ID]`
abbrev pub with_required : List String → Check → Check
with_required required check = record check { required = contains required check.id }

-- What one round of the loop over the evidence tests.
unfoldable pub admit_evidence : CheckMap → ImportedCiQualityEvidence → Option Error
admit_evidence checks imported = do
  wrap_error "pipeline: imported CI evidence: %w" (validate_evidence imported)
  fail_if (has_key imported.check.id checks)
      (errorf "pipeline: duplicate CI check %q" (imported.check.id ∷ []))

-- The loop over the evidence.
unfoldable pub collect_evidence :
    List String
    → CheckMap
    → List GateFinding
    → List ImportedCiQualityEvidence
    → Result (CheckMap × List GateFinding)
collect_evidence required checks findings [] = ok (checks, findings)
collect_evidence required checks findings (imported ∷ evidence) =
    admit_evidence checks imported
    then_ok collect_evidence required
        ((imported.check.id, with_required required imported.check) ∷ checks)
        (findings ++ map (signal_finding imported.check) imported.signals) evidence

-- The keys of the set `required`, each once.
unfoldable pub keys : List String → List String
keys [] = []
keys (id ∷ ids) = let rest = keys ids in if contains rest id then rest else id ∷ rest

abbrev pub is_open : Option Check → Bool
is_open none = true
is_open (some check) = elim check.status [
  | pending ↦ true
  | running ↦ true
  | unknown ↦ true
  | not_applicable ↦ true
  | _ ↦ false
]

unfoldable pub open_ids : CheckMap → List String → List String
open_ids checks [] = []
open_ids checks (id ∷ ids) =
    if is_open (lookup id checks) then id ∷ open_ids checks ids else open_ids checks ids

-- `checks[id]` for each ID in turn; the IDs are keys of the map.
unfoldable pub checks_at : CheckMap → List String → List Check
checks_at checks [] = []
checks_at checks (id ∷ ids) = elim (lookup id checks) [
  | none ↦ checks_at checks ids
  | some check ↦ check ∷ checks_at checks ids
]

abbrev pub ids_of : CheckMap → List String
ids_of = map (λ (entry : String × Check). entry.0)

unfoldable pub coverage_of : List String → CheckMap → CoverageProjection
coverage_of required checks =
    let unknown_ids = sorted_copy (open_ids checks (keys required)) in
    record {
      checks = checks_at checks (sorted_copy (ids_of checks));
      complete = is_empty unknown_ids;
      unknown_check_ids = unknown_ids;
    }

-- `buildCIGateInputs`
unfoldable pub build_ci_gate_inputs :
    EffectivePolicy
    → List ImportedCiQualityEvidence
    → Result (CoverageProjection × List GateFinding)
build_ci_gate_inputs effective evidence =
    let required = effective.quality_gate.required_coverage in
    bind (collect_evidence required [] [] evidence)
      λ collected. ok (coverage_of required collected.0, collected.1)

-- A complete assessment over incomplete coverage is made partial.
unfoldable pub downgrade : CoverageProjection → AssessmentProjection → AssessmentProjection
downgrade coverage assessment =
    if not coverage.complete && is_complete assessment.completeness
    then record assessment {
      completeness = partial;
      stop_reason = "required CI evidence is unavailable";
    }
    else assessment

abbrev pub zero_coverage : CoverageProjection
zero_coverage = record { checks = []; complete = false; unknown_check_ids = [] }

abbrev pub gate_or_zero : GateResult × Option Error → GateResult × Option Error
gate_or_zero (gate, none) = (gate, none)
gate_or_zero (gate, some e) = (zero_result, some e)

-- `EvaluateImportedCIGate`
unfoldable pub evaluate_imported_ci_gate :
    EffectivePolicy
    → AssessmentProjection
    → String
    → List ImportedCiQualityEvidence
    → Option BaselineRef
    → Time
    → CoverageProjection × GateResult × Option Error
evaluate_imported_ci_gate effective assessment digest evidence baseline evaluated_at =
    elim (build_ci_gate_inputs effective evidence) [
      | err e ↦ (zero_coverage, zero_result, some e)
      | ok (coverage, findings) ↦
          let gate = gate_or_zero (
            evaluate_quality_gate effective (record {
              assessment = downgrade coverage assessment;
              assessment_digest = digest;
              coverage = coverage;
              findings = findings;
              baseline = baseline;
              evaluated_at = evaluated_at;
            })) in
          (coverage, gate.0, gate.1)
    ]

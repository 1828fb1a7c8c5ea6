-- ===== src/Review/Gate/Laws.antt =====
-- What the `Validate` methods of an assessment and of a gate result accept.
use review.Base.{true, false, ◌≡◌, ◌≢◌, ◌⊎◌, ◌↔◌, none, arith, [], eq_iff}
use review.Base.Text.{is_blank}
use review.Review.Check.{CoverageProjection}
use review.Review.Gate.{
  AssessmentProjection, AssessmentCompleteness, partial, complete, GateResult, GateMode,
  GateOutcome, pass, violations, incomplete, error, validate_assessment, validate_gate_result,
}

abbrev pub IsCovered : CoverageProjection → Type 0
IsCovered coverage = (coverage.complete ≡ true) × (coverage.unknown_check_ids ≡ [])

abbrev pub IsConclusive :
    AssessmentCompleteness → AssessmentProjection → CoverageProjection → Type 0
IsConclusive complete a coverage = IsCovered coverage
IsConclusive partial a coverage = is_blank a.stop_reason ≡ false
IsConclusive (AssessmentCompleteness.other s) a coverage = ⊥

-- An assessment is accepted exactly if it is identified, its purpose is one of two, it is complete
-- over full coverage or partial with a reason, and risk and time are given.
pub validate_assessment_iff :
    (a : AssessmentProjection) (coverage : CoverageProjection)
    → (validate_assessment a coverage ≡ none) ↔ (
        (is_blank a.id ≡ false)
        × (a.version ≢ 0)
        × (is_blank a.snapshot_digest ≡ false)
        × (is_blank a.policy_digest ≡ false)
        × ((a.purpose ≡ "assessment") ⊎ (a.purpose ≡ "exploration"))
        × IsConclusive a.completeness a coverage
        × (is_blank a.risk ≡ false)
        × (a.created_at ≢ 0))
unfolding validate_assessment
validate_assessment_iff a coverage = (
  λ h. ground (arith, eq_iff a.purpose "assessment", eq_iff a.purpose "exploration"),
  λ h. ground (arith, eq_iff a.purpose "assessment", eq_iff a.purpose "exploration"),
)

abbrev pub IsKnownMode : GateMode → Type 0
IsKnownMode (GateMode.other s) = ⊥
IsKnownMode _ = Unit {0}

-- What an outcome claims of the coverage and of the lists beside it.
abbrev pub IsJustified : GateOutcome → GateResult → CoverageProjection → Type 0
IsJustified pass g coverage = IsCovered coverage
IsJustified violations g coverage = g.violated_rule_ids ≢ []
IsJustified incomplete g coverage = (coverage.complete ≡ false) ⊎ (g.unknown_obligation_ids ≢ [])
IsJustified error g coverage = Unit {0}
IsJustified (GateOutcome.other s) g coverage = ⊥

-- A gate result is accepted exactly if it is bound to an assessment and a policy, its mode is
-- known, its outcome is justified by the coverage and its lists, and its time is given.
pub validate_gate_result_iff :
    (g : GateResult) (coverage : CoverageProjection)
    → (validate_gate_result g coverage ≡ none) ↔ (
        (is_blank g.assessment_id ≡ false)
        × (g.assessment_version ≢ 0)
        × (is_blank g.assessment_digest ≡ false)
        × (is_blank g.policy_digest ≡ false)
        × IsKnownMode g.mode
        × IsJustified g.outcome g coverage
        × (g.evaluated_at ≢ 0))
unfolding validate_gate_result
validate_gate_result_iff g coverage = (λ h. ground arith, λ h. ground arith)

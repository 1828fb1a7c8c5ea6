-- ===== src/Review/Gate.antt =====
-- agent/review/domain.go: an assessment and the result of the quality gate.
pub mod Laws
use review.Base.{
  ℕ, String, Bool, true, false, not, ◌||◌, ◌&&◌, Option, none, some, str_eq, Error, new, errorf,
  ◌>>◌, fail_if, ◌==◌, List, [], ◌∷◌, is_empty,
}
use review.Base.Text.{is_blank}
use review.Base.Time.{Time, is_zero}
use review.Review.Check.{CoverageProjection}

-- `AssessmentCompleteness`; `other` holds a spelling that is none of the constants.
pub data AssessmentCompleteness : Type 0 where
  partial complete : AssessmentCompleteness
  other : String → AssessmentCompleteness

abbrev pub is_complete : AssessmentCompleteness → Bool
is_complete complete = true
is_complete _ = false

pub record AssessmentProjection : Type 0 where
  pub id : String
  pub version : ℕ  -- uint64
  pub purpose : String
  pub snapshot_digest : String
  pub policy_digest : String
  pub completeness : AssessmentCompleteness
  pub risk : String
  pub stop_reason : String
  pub finding_ids : List String
  pub evidence_refs : List String
  pub created_at : Time

-- `!coverage.Complete || len(coverage.UnknownCheckIDs) != 0`
abbrev pub has_gaps : CoverageProjection → Bool
has_gaps coverage = not coverage.complete || not (is_empty coverage.unknown_check_ids)

validate_completeness :
    AssessmentCompleteness → AssessmentProjection → CoverageProjection → Option Error
validate_completeness complete a coverage =
    fail_if (has_gaps coverage) (new "complete assessment requires complete coverage")
validate_completeness partial a coverage =
    fail_if (is_blank a.stop_reason) (new "partial assessment requires a stop reason")
validate_completeness (other s) a coverage =
    some (errorf "unsupported assessment completeness %q" (s ∷ []))

-- `AssessmentProjection.Validate`
unfoldable pub validate_assessment : AssessmentProjection → CoverageProjection → Option Error
unfolding validate_completeness
validate_assessment a coverage = do
  fail_if
      (is_blank a.id || a.version == 0 || is_blank a.snapshot_digest || is_blank a.policy_digest)
      (new "assessment identity, snapshot and policy are required")
  fail_if (not (str_eq a.purpose "assessment") && not (str_eq a.purpose "exploration"))
      (errorf "unsupported assessment purpose %q" (a.purpose ∷ []))
  validate_completeness a.completeness a coverage
  fail_if (is_blank a.risk || is_zero a.created_at)
      (new "assessment risk and creation time are required")

-- `GateMode`; `other` holds a spelling that is none of the constants.
pub data GateMode : Type 0 where
  advisory blocking : GateMode
  other : String → GateMode

pub data GateOutcome : Type 0 where
  pass violations incomplete error : GateOutcome
  other : String → GateOutcome

pub record GateResult : Type 0 where
  pub assessment_id : String
  pub assessment_version : ℕ  -- uint64
  pub assessment_digest : String
  pub policy_digest : String
  pub mode : GateMode
  pub outcome : GateOutcome
  pub violated_rule_ids : List String
  pub unknown_obligation_ids : List String
  pub evidence_refs : List String
  pub evaluated_at : Time

abbrev check_mode : GateMode → Option Error
check_mode (GateMode.other s) = some (errorf "unsupported gate mode %q" (s ∷ []))
check_mode _ = none

validate_outcome : GateOutcome → GateResult → CoverageProjection → Option Error
validate_outcome pass g coverage =
    fail_if (has_gaps coverage) (new "gate cannot pass incomplete coverage")
validate_outcome violations g coverage =
    fail_if (is_empty g.violated_rule_ids) (new "violations outcome requires violated rules")
validate_outcome incomplete g coverage =
    fail_if (coverage.complete && is_empty g.unknown_obligation_ids)
      (new "incomplete outcome requires incomplete coverage or unknown obligations")
validate_outcome error g coverage = none
validate_outcome (GateOutcome.other s) g coverage =
    some (errorf "unsupported gate outcome %q" (s ∷ []))

-- `GateResult.Validate`
unfoldable pub validate_gate_result : GateResult → CoverageProjection → Option Error
unfolding validate_outcome
validate_gate_result g coverage = do
  fail_if
      (is_blank g.assessment_id
        || g.assessment_version == 0
        || is_blank g.assessment_digest
        || is_blank g.policy_digest)
      (new "gate assessment and policy identity are required")
  check_mode g.mode
  validate_outcome g.outcome g coverage
  fail_if (is_zero g.evaluated_at) (new "gate evaluation time is required")

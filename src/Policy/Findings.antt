-- ===== src/Policy/Findings.antt =====
-- agent/policy/gate.go: the findings that count against the gate.
pub mod Laws
use review.Base.{
  ℕ, String, Bool, true, false, not, ◌||◌, ◌&&◌, Option, none, some, List, [], ◌∷◌, ◌++◌, str_eq,
  Error, new, wrap, ◌>>◌, fail_if, if◌then◌else◌, is_empty, ltb,
}
use review.Base.Text.{is_blank}
use review.Base.Names.{contains, sorted_unique}
use review.Base.Time.{Time, is_zero}
use review.Review.Check.{
  Check, CheckStatus, pending, running, unknown, violated, CoverageProjection,
}
use review.Review.Gate.{
  AssessmentProjection, is_complete, validate_assessment, GateMode, advisory, blocking, GateOutcome,
  pass, violations, incomplete, error, GateResult, validate_gate_result,
}
use review.Policy.Schema.{QualityGate, EffectivePolicy}
use review.Policy.Baseline.{BaselineRef, validate_baseline}

pub record GateFinding : Type 0 where
  pub key : String
  pub rule_id : String
  pub severity : String
  pub strength : String
  pub evidence_refs : List String
  pub in_changed_scope : Bool
  pub validated : Bool

-- A Go map literal, read by key; a missing key reads 0.
unfoldable pub severity_rank : String → ℕ
severity_rank value =
    if str_eq value "info"
    then 1
    else if str_eq value "low"
    then 2
    else if str_eq value "medium"
    then 3
    else if str_eq value "high"
    then 4
    else if str_eq value "critical"
    then 5
    else 0

unfoldable pub strength_rank : String → ℕ
strength_rank value =
    if str_eq value "note"
    then 1
    else if str_eq value "human_check"
    then 2
    else if str_eq value "confirmed"
    then 3
    else 0

abbrev pub keys_of : Bool → Option BaselineRef → List String
keys_of true (some baseline) = baseline.finding_keys
keys_of _ _ = []

-- The guards of the loop in `matchingViolations`: false where one of them continues.
unfoldable pub counts : QualityGate → List String → GateFinding → Bool
counts gate baseline_keys finding =
    not (not finding.validated || str_eq finding.key "" || str_eq finding.rule_id "")
    && not (not (is_empty gate.rule_ids) && not (contains gate.rule_ids finding.rule_id))
    && not (
        ltb (severity_rank finding.severity) (severity_rank gate.min_severity)
        || ltb (strength_rank finding.strength) (strength_rank gate.min_strength))
    && not (not (str_eq gate.baseline_mode "all") && contains baseline_keys finding.key)
    && not (str_eq gate.baseline_mode "changed" && not finding.in_changed_scope)

unfoldable pub violating_rules : QualityGate → List String → List GateFinding → List String
violating_rules gate keys [] = []
violating_rules gate keys (finding ∷ findings) =
    if counts gate keys finding
    then finding.rule_id ∷ violating_rules gate keys findings
    else violating_rules gate keys findings

unfoldable pub violating_evidence : QualityGate → List String → List GateFinding → List String
violating_evidence gate keys [] = []
violating_evidence gate keys (finding ∷ findings) =
    if counts gate keys finding
    then finding.evidence_refs ++ violating_evidence gate keys findings
    else violating_evidence gate keys findings

-- The two results of the loop.
unfoldable pub matching_violations :
    QualityGate → List GateFinding → Option BaselineRef → Bool → List String × List String
unfolding violating_rules violating_evidence
matching_violations gate findings baseline compatible =
    let keys = keys_of compatible baseline in
    (
      sorted_unique (violating_rules gate keys findings),
      sorted_unique (violating_evidence gate keys findings),
    )

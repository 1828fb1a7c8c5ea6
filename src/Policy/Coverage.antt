-- ===== src/Policy/Coverage.antt =====
-- agent/policy/gate.go: the obligations that the coverage leaves open or finds violated.
pub mod Laws
use review.Base.{
  ℕ, String, Bool, true, false, not, ◌||◌, ◌&&◌, Option, none, some, List, [], ◌∷◌, ◌++◌, str_eq,
  Error, new, wrap, ◌>>◌, fail_if, if◌then◌else◌, is_empty, ltb,
}
use review.Base.Text.{is_blank}
use review.Base.Names.{contains, sorted_unique}
use review.Base.Time.{Time, is_zero}
use review.Review.Check.{
  Check, CheckStatus, pending, running, unknown, violated, CoverageProjection,
}
use review.Review.Gate.{
  AssessmentProjection, is_complete, validate_assessment, GateMode, advisory, blocking, GateOutcome,
  pass, violations, incomplete, error, GateResult, validate_gate_result,
}
use review.Policy.Schema.{QualityGate, EffectivePolicy}
use review.Policy.Baseline.{BaselineRef, validate_baseline}

-- `checks[id]` where `checks` is filled in order, so a later check of the same ID wins.
unfoldable pub status_of : List Check → String → Option CheckStatus
status_of [] id = none
status_of (check ∷ checks) id = elim (status_of checks id) [
  | some status ↦ some status
  | none ↦ if str_eq check.id id then some check.status else none
]

abbrev pub is_open : Option CheckStatus → Bool
is_open none = true
is_open (some pending) = true
is_open (some running) = true
is_open (some unknown) = true
is_open (some _) = false

open_required : List String → List Check → List String
open_required [] checks = []
open_required (id ∷ required) checks =
    if is_open (status_of checks id)
    then id ∷ open_required required checks
    else open_required required checks

unfoldable pub missing_required_coverage : List String → CoverageProjection → List String
unfolding open_required status_of
missing_required_coverage required coverage =
    coverage.unknown_check_ids ++ open_required required coverage.checks

abbrev pub is_violated : CheckStatus → Bool
is_violated violated = true
is_violated _ = false

unfoldable pub violated_checks : List String → List Check → List String
violated_checks required [] = []
violated_checks required (check ∷ checks) =
    if contains required check.id && is_violated check.status
    then check.id ∷ violated_checks required checks
    else violated_checks required checks

unfoldable pub violated_required_coverage : List String → CoverageProjection → List String
unfolding violated_checks
violated_required_coverage required coverage = violated_checks required coverage.checks

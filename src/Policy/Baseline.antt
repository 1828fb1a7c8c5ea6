-- ===== src/Policy/Baseline.antt =====
-- agent/policy/baseline.go: whether a stored baseline may be held against the effective policy.
pub mod Laws
use review.Base.{
  String, Bool, true, false, not, ◌||◌, ◌&&◌, Option, none, some, List, str_eq, Error, new, errorf,
  ◌>>◌, fail_if, if◌then◌else◌, ◌==◌, length, all, [], ◌∷◌,
}
use review.Base.Names.{contains}
use review.Policy.Schema.{EffectivePolicy}

pub record BaselineRef : Type 0 where
  pub assessment_id : String
  pub policy_digest : String
  pub context_name : String
  pub rule_ids : List String
  pub coverage_ids : List String
  pub finding_keys : List String
  pub verified : Bool

unfoldable pub same_set : List String → List String → Bool
same_set left right = length left == length right && all (contains left) right

-- The checks that follow `baseline == nil || !baseline.Verified`.
check_baseline : EffectivePolicy → Option BaselineRef → Option Error
check_baseline effective none = some (
    errorf "policy: %s baseline mode requires a verified baseline"
      (effective.quality_gate.baseline_mode ∷ []))
check_baseline effective (some b) = do
  fail_if (not b.verified) (
      errorf "policy: %s baseline mode requires a verified baseline"
        (effective.quality_gate.baseline_mode ∷ []))
  fail_if
      (str_eq b.assessment_id ""
        || not (str_eq b.policy_digest effective.digest)
        || not (str_eq b.context_name effective.quality_gate.context_name))
      (new "policy: baseline identity is incompatible with the effective quality gate")
  fail_if
      (not (same_set b.rule_ids effective.quality_gate.rule_ids)
        || not (same_set b.coverage_ids effective.quality_gate.required_coverage))
      (new "policy: baseline rules or coverage are incompatible with the effective quality gate")

-- `ValidateBaseline`
unfoldable pub validate_baseline : EffectivePolicy → Option BaselineRef → Option Error
unfolding check_baseline
validate_baseline effective baseline =
    if str_eq effective.quality_gate.baseline_mode "all"
    then none
    else check_baseline effective baseline

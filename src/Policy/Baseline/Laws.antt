-- ===== src/Policy/Baseline/Laws.antt =====
-- When a baseline is compatible with the effective policy.
use review.Base.{true, ◌≡◌, ◌≢◌, ◌↔◌, ◌⊎◌, Option, none, some, eq_iff, arith}
use review.Policy.Schema.{EffectivePolicy}
use review.Policy.Baseline.{BaselineRef, same_set, validate_baseline}

-- What makes a stored baseline usable: it is verified, it was assessed under this very policy and
-- gate context, and it had the same rules and the same coverage.
abbrev pub IsBound : EffectivePolicy → Option BaselineRef → Type 0
IsBound effective none = ⊥
IsBound effective (some b) =
    (b.verified ≡ true)
    × (b.assessment_id ≢ "")
    × (b.policy_digest ≡ effective.digest)
    × (b.context_name ≡ effective.quality_gate.context_name)
    × (same_set b.rule_ids effective.quality_gate.rule_ids ≡ true)
    × (same_set b.coverage_ids effective.quality_gate.required_coverage ≡ true)

-- A baseline is accepted exactly if the gate compares with none, or the baseline is bound to this
-- policy.
pub validate_baseline_iff :
    (effective : EffectivePolicy) (baseline : Option BaselineRef)
    → (validate_baseline effective baseline ≡ none)
      ↔ ((effective.quality_gate.baseline_mode ≡ "all") ⊎ IsBound effective baseline)
unfolding validate_baseline
validate_baseline_iff effective none = (
  λ h. ground (arith, eq_iff effective.quality_gate.baseline_mode "all"),
  λ h. ground (arith, eq_iff effective.quality_gate.baseline_mode "all"),
)
validate_baseline_iff effective (some b) = (
  λ h. ground (
    arith,
    eq_iff effective.quality_gate.baseline_mode "all",
    eq_iff b.assessment_id "",
    eq_iff b.policy_digest effective.digest,
    eq_iff b.context_name effective.quality_gate.context_name,
  ),
  λ h. ground (
    arith,
    eq_iff effective.quality_gate.baseline_mode "all",
    eq_iff b.assessment_id "",
    eq_iff b.policy_digest effective.digest,
    eq_iff b.context_name effective.quality_gate.context_name,
  ),
)

-- ===== src/Policy/Replacement.antt =====
-- agent/policy/compile.go: `applyDelegatedReplacement`, what an authorised pack may take away.
pub mod Laws
use review.Base.{
  String, not, ◌&&◌, List, [], ◌∷◌, ◌++◌, if◌then◌else◌, str_eq, is_empty, ltb, Option, none, some,
  Error, errorf, ◌>>◌, fail_if, Result, ok, ◌then_ok◌,
}
use review.Base.Names.{contains, without}
use review.Base.Time.{Time, is_zero, before}
use review.Policy.Schema.{EffectivePolicy, MethodPack, Delegation}
use review.Policy.Publication.{risk_rank}

check_expiry : Delegation → Option Time → Time → Option Error
check_expiry d none at = none
check_expiry d (some expires_at) at = do
  fail_if (is_zero at)
      (errorf "policy: delegation %q expiry requires an explicit compilation clock" (d.id ∷ []))
  fail_if (not (before at expires_at)) (errorf "policy: delegation %q is expired" (d.id ∷ []))

-- One of the two loops over what the pack adds; an empty allowlist allows all.
check_allowed : String → Delegation → List String → List String → Option Error
check_allowed text d allowed [] = none
check_allowed text d allowed (value ∷ values) = do
  fail_if (not (is_empty allowed) && not (contains allowed value)) (errorf text (d.id ∷ value ∷ []))
  check_allowed text d allowed values

-- The tests that come before any replacement, and the one on the risk floor.
unfoldable pub check_replacement : MethodPack → Delegation → Time → Option Error
unfolding check_expiry check_allowed
check_replacement pack d at = do
  check_expiry d d.constraints.expires_at at
  check_allowed "policy: delegation %q does not allow method %q" d d.constraints.allowed_method_ids
      pack.methods
  check_allowed "policy: delegation %q does not allow check %q" d d.constraints.allowed_check_ids
      pack.checks
  fail_if
      (contains d.replace_fields "risk_floor"
        && (not (str_eq d.constraints.max_risk "")
            && ltb (risk_rank d.constraints.max_risk) (risk_rank pack.risk_floor)))
      (errorf "policy: delegation %q risk floor exceeds its constraint" (d.id ∷ []))

-- The replacements themselves.
unfoldable pub replace_fields : EffectivePolicy → MethodPack → Delegation → EffectivePolicy
replace_fields e pack d = record e {
  methods =
      if contains d.replace_fields "methods"
      then without e.methods d.replace_rule_ids
      else e.methods;
  required_checks =
      if contains d.replace_fields "checks"
      then without e.required_checks d.replace_rule_ids
      else e.required_checks;
  risk_floor = if contains d.replace_fields "risk_floor" then pack.risk_floor else e.risk_floor;
  independent_review =
      if contains d.replace_fields "independent_review"
      then pack.independent_review
      else e.independent_review;
  publication =
      if contains d.replace_fields "publication" && not (str_eq pack.publication.mode "inherit")
      then pack.publication
      else e.publication;
  explanation =
      e.explanation
      ++ (record {
        field = "delegation";
        value = d.id;
        source = d.provenance_ref;
        reason = "authorized replacement applied before pack union";
        precedence = pack.priority;
      })
        ∷ [];
}

-- `applyDelegatedReplacement`. On an error Go may have changed `*e` already; its only caller then
-- returns an empty policy.
unfoldable pub apply_delegated_replacement :
    EffectivePolicy → MethodPack → Delegation → Time → Result EffectivePolicy
apply_delegated_replacement e pack d at =
    check_replacement pack d at then_ok ok (replace_fields e pack d)

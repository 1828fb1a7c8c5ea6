-- ===== src/Policy/Gate/Obligations.antt =====
-- The names that the gate lists as unknown and as violated.
use review.Base.{String, not, ◌||◌, ◌&&◌, ◌≡◌, List, [], ◌∷◌, ◌++◌, str_eq, arith, any}
use review.Base.Names.{contains, sorted_unique}
use review.Base.Names.Membership.{contains-append, contains-sorted_unique}
use review.Policy.Schema.{EffectivePolicy}
use review.Policy.Baseline.{validate_baseline}
use review.Policy.Coverage.{
  is_open, status_of, missing_required_coverage, violated_required_coverage, violated_checks,
}
use review.Policy.Coverage.Laws.{
  contains-missing_required_coverage, violates, contains-violated_checks,
}
use review.Policy.Findings.{keys_of, matching_violations, violating_rules}
use review.Policy.Findings.Laws.{reports, contains-violating_rules}
use review.Policy.Gate.{GateInput, is_none, unknown_obligations, violated_rules}

module _ (effective : EffectivePolicy) (input : GateInput) where
  -- The baseline's keys that count: none unless it is compatible.
  abbrev pub active_keys : List String
  active_keys = keys_of (is_none (validate_baseline effective input.baseline)) input.baseline

  pub contains-unknown_obligations :
      (w : String)
      → contains (unknown_obligations effective input) w ≡ (
          (contains input.coverage.unknown_check_ids w
            || contains effective.quality_gate.required_coverage w
              && is_open (status_of input.coverage.checks w)
            || not (is_none (validate_baseline effective input.baseline)) && str_eq "baseline" w)
          && not (str_eq w ""))
  unfolding unknown_obligations contains
  contains-unknown_obligations w =
      let missing =
        missing_required_coverage effective.quality_gate.required_coverage input.coverage in
      ground (
        arith,
        contains-sorted_unique missing w,
        contains-sorted_unique (missing ++ "baseline" ∷ []) w,
        contains-append missing ("baseline" ∷ []) w,
        contains-missing_required_coverage effective.quality_gate.required_coverage input.coverage
            w,
      )

  pub contains-violated_rules :
      (w : String)
      → contains (violated_rules effective input) w ≡ (
          (any (reports effective.quality_gate active_keys w) input.findings
            || contains effective.quality_gate.required_coverage w
              && any (violates w) input.coverage.checks)
          && not (str_eq w ""))
  unfolding violated_rules matching_violations violated_required_coverage
  contains-violated_rules w =
      let rules = violating_rules effective.quality_gate active_keys input.findings in
      let checks = violated_checks effective.quality_gate.required_coverage input.coverage.checks in
      ground (
        arith,
        contains-sorted_unique (sorted_unique rules ++ checks) w,
        contains-append (sorted_unique rules) checks w,
        contains-sorted_unique rules w,
        contains-violating_rules effective.quality_gate active_keys input.findings w,
        contains-violated_checks effective.quality_gate.required_coverage input.coverage.checks w,
      )

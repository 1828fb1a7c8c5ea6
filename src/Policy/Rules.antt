-- ===== src/Policy/Rules.antt =====
-- agent/policy/rules.go: rules that are resolved before compilation, and their obligations.
use review.Base.{
  String, not, List, [], ◌∷◌, ◌++◌, if◌then◌else◌, str_eq, is_empty, any, Option, none, some, Error,
  new, errorf, ◌>>◌, fail_if,
}
use review.Base.Int.{ℤ, pos}
use review.Base.Names.{stable_union}
use review.Policy.Schema.{lookup, ResolvedRule, ReviewConfig, MethodPack, EffectivePolicy}
use review.Policy.Triggers.{has_key}

check_resolved : List String → List (String × ResolvedRule) → Option Error
check_resolved [] rules = none
check_resolved (ref ∷ refs) rules = do
  fail_if (not (has_key ref rules)) (errorf "policy: unresolved rule reference %s" (ref ∷ []))
  check_resolved refs rules

unfoldable pub all_rule_refs : List String → List MethodPack → List String
all_rule_refs refs [] = refs
all_rule_refs refs (pack ∷ packs) = all_rule_refs (stable_union refs pack.rule_refs) packs

-- `requireResolvedRules`
unfoldable pub require_resolved_rules : ReviewConfig → Option Error
unfolding check_resolved all_rule_refs
require_resolved_rules config = do
  fail_if (not (is_empty config.rule_refs))
      (new "policy: unresolved rule references; resolve trusted documents before compilation")
  check_resolved (all_rule_refs config.default_rule_refs config.packs) config.rules

-- `ResolvedRule{}`, which a missing key reads
abbrev pub zero_rule : ResolvedRule
zero_rule = record {
  schema_version = pos 0;
  id = "";
  title = "";
  statement = "";
  checks = [];
  source = record { kind = ""; id = ""; path = ""; digest = "" };
}

unfoldable pub rule_at : String → List (String × ResolvedRule) → ResolvedRule
rule_at ref rules = elim (lookup ref rules) [ none ↦ zero_rule | some rule ↦ rule ]

-- What `applyRule` does where no rule of the same path is there yet.
unfoldable pub add_rule :
    EffectivePolicy → ReviewConfig → String → ℤ → ResolvedRule → EffectivePolicy
add_rule e config ref priority rule =
    let gate = e.quality_gate in
    record e {
      rules = e.rules ++ rule ∷ [];
      required_checks = stable_union e.required_checks rule.checks;
      quality_gate = record gate {
        required_coverage = stable_union gate.required_coverage rule.checks;
        rule_ids =
            if is_empty config.quality_gate.rule_ids
            then gate.rule_ids
            else stable_union gate.rule_ids (rule.id ∷ []);
      };
      explanation =
          e.explanation
          ++ (record {
            field = "rule";
            value = rule.id;
            source = ref;
            reason = "selected trusted rule contributes statement and mandatory coverage";
            precedence = priority;
          })
            ∷ [];
    }

-- `applyRule`
unfoldable pub apply_rule : EffectivePolicy → ReviewConfig → String → ℤ → EffectivePolicy
apply_rule e config ref priority =
    if any (λ (old : ResolvedRule). str_eq old.source.path ref) e.rules
    then e
    else add_rule e config ref priority (rule_at ref config.rules)

-- `for _, ref := range refs { applyRule(...) }`
unfoldable pub apply_rules : EffectivePolicy → ReviewConfig → List String → ℤ → EffectivePolicy
apply_rules e config [] priority = e
apply_rules e config (ref ∷ refs) priority =
    apply_rules (apply_rule e config ref priority) config refs priority

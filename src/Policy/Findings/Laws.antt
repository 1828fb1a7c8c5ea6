-- ===== src/Policy/Findings/Laws.antt =====
-- Which findings count against the gate.
use review.Base.{
  ◌≤◌, String, Bool, true, false, ◌&&◌, ◌≡◌, ◌≢◌, ◌↔◌, ◌⊎◌, refl, List, [], ◌∷◌, str_eq, eq_iff,
  arith, any,
}
use review.Base.Names.{contains}
use review.Base.Names.Membership.{contains-append}
use review.Policy.Schema.{QualityGate}
use review.Policy.Findings.{
  GateFinding, counts, severity_rank, strength_rank, violating_rules, violating_evidence,
}

-- A finding that the gate must report: validated and identified, selected by the rule filter, at
-- least as severe and as strong as asked, not known from the baseline, and in the change where only
-- changes count.
pub record IsReported (gate : QualityGate) (keys : List String) (f : GateFinding) : Type 0 where
  pub validated : f.validated ≡ true
  pub keyed : f.key ≢ ""
  pub ruled : f.rule_id ≢ ""
  pub selected : (gate.rule_ids ≡ []) ⊎ (contains gate.rule_ids f.rule_id ≡ true)
  pub severe : severity_rank gate.min_severity ≤ severity_rank f.severity
  pub strong : strength_rank gate.min_strength ≤ strength_rank f.strength
  pub fresh : (gate.baseline_mode ≡ "all") ⊎ (contains keys f.key ≡ false)
  pub changed : (gate.baseline_mode ≢ "changed") ⊎ (f.in_changed_scope ≡ true)

counts→reported :
    (gate : QualityGate) (keys : List String) (f : GateFinding)
    → counts gate keys f ≡ true
    → IsReported gate keys f
unfolding counts
counts→reported gate keys f h = ground (
  arith,
  eq_iff f.key "",
  eq_iff f.rule_id "",
  eq_iff gate.baseline_mode "all",
  eq_iff gate.baseline_mode "changed",
)

reported→counts :
    (gate : QualityGate) (keys : List String) (f : GateFinding)
    → IsReported gate keys f
    → counts gate keys f ≡ true
unfolding counts
reported→counts gate keys f r = ground (
  arith,
  eq_iff f.key "",
  eq_iff f.rule_id "",
  eq_iff gate.baseline_mode "all",
  eq_iff gate.baseline_mode "changed",
)

-- The guards of the loop keep exactly the findings that the gate must report.
pub counts_iff :
    (gate : QualityGate) (keys : List String) (f : GateFinding)
    → (counts gate keys f ≡ true) ↔ IsReported gate keys f
counts_iff gate keys f = (counts→reported gate keys f, reported→counts gate keys f)

abbrev pub reports : QualityGate → List String → String → GateFinding → Bool
reports gate keys rule f = counts gate keys f && str_eq f.rule_id rule

pub contains-violating_rules :
    (gate : QualityGate) (keys : List String) (fs : List GateFinding) (rule : String)
    → contains (violating_rules gate keys fs) rule ≡ any (reports gate keys rule) fs
unfolding violating_rules contains
contains-violating_rules gate keys [] rule = refl
contains-violating_rules gate keys (f ∷ fs) rule =
    ground (arith, contains-violating_rules gate keys fs rule)

abbrev pub evidences : QualityGate → List String → String → GateFinding → Bool
evidences gate keys ref f = counts gate keys f && contains f.evidence_refs ref

pub contains-violating_evidence :
    (gate : QualityGate) (keys : List String) (fs : List GateFinding) (ref : String)
    → contains (violating_evidence gate keys fs) ref ≡ any (evidences gate keys ref) fs
unfolding violating_evidence contains
contains-violating_evidence gate keys [] ref = refl
contains-violating_evidence gate keys (f ∷ fs) ref = ground (
  arith,
  contains-violating_evidence gate keys fs ref,
  contains-append f.evidence_refs (violating_evidence gate keys fs) ref,
)

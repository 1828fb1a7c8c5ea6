-- ===== src/Policy/Gate/ExitCode.antt =====
-- The exit code of a command that ran the gate.
use review.Base.{◌≡◌, ◌↔◌, ◌⊎◌, arith, none, sym, subst}
use review.Review.Gate.{advisory, blocking, GateOutcome, pass, violations, incomplete, GateResult}
use review.Review.Gate.Laws.{IsKnownMode}
use review.Policy.Schema.{EffectivePolicy}
use review.Policy.Gate.{
  GateInput, gate_result, decide_outcome, evaluate_quality_gate, gate_exit_code,
}
use review.Policy.Gate.Evaluation.{evaluate_result, evaluate_succeeds_iff}

-- What each exit code stands for.
abbrev pub Reads : GateResult → Type 0
Reads r =
    ((gate_exit_code r ≡ 0)
      ↔ ((r.outcome ≡ pass) ⊎ ((r.outcome ≡ violations) × (r.mode ≡ advisory))))
    × ((gate_exit_code r ≡ 1) ↔ ((r.outcome ≡ violations) × (r.mode ≡ blocking)))
    × ((gate_exit_code r ≡ 2) ↔ (r.outcome ≡ incomplete))

abbrev IsConcluded : GateOutcome → Type 0
IsConcluded o = (o ≡ pass) ⊎ ((o ≡ violations) ⊎ (o ≡ incomplete))

gate_result-IsConcluded :
    (effective : EffectivePolicy) (input : GateInput)
    → IsConcluded (gate_result effective input).outcome
unfolding gate_result decide_outcome
gate_result-IsConcluded effective input = ground arith

exit_code_of_mode : (r : GateResult) → IsKnownMode r.mode → IsConcluded r.outcome → Reads r
unfolding gate_exit_code
exit_code_of_mode r m c = (
  (λ h. ground arith, λ h. ground arith),
  (λ h. ground arith, λ h. ground arith),
  (λ h. ground arith, λ h. ground arith),
)

-- After an evaluation without error the exit code is 0 exactly for a pass and for advisory
-- violations, 1 exactly for blocking violations, and 2 exactly for an incomplete outcome.
pub gate_exit_code-Reads :
    (effective : EffectivePolicy) (input : GateInput)
    → (evaluate_quality_gate effective input).1 ≡ none
    → Reads (evaluate_quality_gate effective input).0
unfolding gate_result
gate_exit_code-Reads effective input h = subst Reads (sym (evaluate_result effective input h).0) (
    exit_code_of_mode (gate_result effective input) ((evaluate_succeeds_iff effective input).0 h).1
      (gate_result-IsConcluded effective input))

-- ===== src/Policy/Gate/Evaluation.antt =====
-- What an evaluation of the quality gate concludes.
use review.Base.{
  String, true, false, ◌≡◌, ◌≢◌, ◌↔◌, ◌⊎◌, sym, ◌∙◌, ap, Option, none, [], eq_iff, arith, any,
  is_empty,
}
use review.Base.{Error}
use review.Base.Text.{is_blank}
use review.Base.Names.{contains}
use review.Base.Names.Membership.{empty_of_contains, not_contains_of_empty}
use review.Review.Gate.{complete, pass, GateResult, validate_gate_result, validate_assessment}
use review.Review.Gate.Laws.{
  validate_gate_result_iff, validate_assessment_iff, IsKnownMode, IsJustified,
}
use review.Policy.Schema.{EffectivePolicy}
use review.Policy.Baseline.{validate_baseline}
use review.Policy.Coverage.{is_open, status_of}
use review.Policy.Coverage.Laws.{violates}
use review.Policy.Findings.Laws.{reports}
use review.Policy.Gate.Obligations.{
  active_keys, contains-unknown_obligations, contains-violated_rules,
}
use review.Policy.Gate.{
  GateInput, admit_gate, gate_result, decide_outcome, to_gate_mode, unknown_obligations,
  violated_rules, evaluate_quality_gate,
}

module _ (effective : EffectivePolicy) (input : GateInput) where
  -- An evaluation that returns no error returns the computed result, which was admitted and
  -- validated.
  pub evaluate_result :
      (evaluate_quality_gate effective input).1 ≡ none
      → ((evaluate_quality_gate effective input).0 ≡ gate_result effective input)
        × (admit_gate effective input ≡ none)
        × (validate_gate_result (gate_result effective input) input.coverage ≡ none)
  unfolding evaluate_quality_gate
  evaluate_result h = ground arith

  pub evaluate_of_valid :
      admit_gate effective input ≡ none
      → validate_gate_result (gate_result effective input) input.coverage ≡ none
      → evaluate_quality_gate effective input ≡ (gate_result effective input, none)
  unfolding evaluate_quality_gate
  evaluate_of_valid a v = ground arith

  admitted_assessment :
      admit_gate effective input ≡ none → validate_assessment input.assessment input.coverage ≡ none
  unfolding admit_gate
  admitted_assessment h = ground arith

  -- What a pass means: a complete assessment over complete coverage, every required check closed
  -- and none violated, a baseline that fits, and no finding that the gate must report.
  pub record Passes : Type 0 where
    pub assessed : input.assessment.completeness ≡ complete
    pub covered : input.coverage.complete ≡ true
    pub compatible : validate_baseline effective input.baseline ≡ none
    pub known : (w : String) → w ≢ "" → contains input.coverage.unknown_check_ids w ≡ false
    pub closed :
        (w : String)
        → w ≢ ""
        → contains effective.quality_gate.required_coverage w ≡ true
        → is_open (status_of input.coverage.checks w) ≡ false
    pub satisfied :
        (w : String)
        → w ≢ ""
        → contains effective.quality_gate.required_coverage w ≡ true
        → any (violates w) input.coverage.checks ≡ false
    pub clean :
        (rule : String)
        → rule ≢ ""
        → any (reports effective.quality_gate (active_keys effective input) rule) input.findings
          ≡ false

  pass_parts :
      (gate_result effective input).outcome ≡ pass
      → (input.assessment.completeness ≡ complete)
        × (input.coverage.complete ≡ true)
        × (is_empty (unknown_obligations effective input) ≡ true)
        × (is_empty (violated_rules effective input) ≡ true)
  unfolding gate_result decide_outcome
  pass_parts h = ground arith

  pass_of_parts :
      input.assessment.completeness ≡ complete
      → input.coverage.complete ≡ true
      → unknown_obligations effective input ≡ []
      → violated_rules effective input ≡ []
      → (gate_result effective input).outcome ≡ pass
  unfolding gate_result decide_outcome
  pass_of_parts a c u v = ground arith

  Passes_of_pass : (gate_result effective input).outcome ≡ pass → Passes
  Passes_of_pass h =
      let (a, c, u, v) = pass_parts h in
      let nu : (w : String) → contains (unknown_obligations effective input) w ≡ false =
        λ w. not_contains_of_empty (unknown_obligations effective input) w u in
      let nv : (w : String) → contains (violated_rules effective input) w ≡ false =
        λ w. not_contains_of_empty (violated_rules effective input) w v in
      record {
        assessed = a;
        covered = c;
        compatible = ground (
          arith,
          nu "baseline",
          contains-unknown_obligations effective input "baseline",
          eq_iff "baseline" "baseline",
          eq_iff "baseline" "",
        );
        known = λ w ne.
            ground (arith, nu w, contains-unknown_obligations effective input w, eq_iff w "");
        closed = λ w ne r.
            ground (arith, nu w, contains-unknown_obligations effective input w, eq_iff w "");
        satisfied =
            λ w ne r. ground (arith, nv w, contains-violated_rules effective input w, eq_iff w "");
        clean =
            λ w ne. ground (arith, nv w, contains-violated_rules effective input w, eq_iff w "");
      }

  pass_of_Passes : Passes → (gate_result effective input).outcome ≡ pass
  pass_of_Passes p =
      pass_of_parts p.assessed p.covered
        (empty_of_contains _ λ w. ground (
          arith,
          p.known w,
          p.closed w,
          p.compatible,
          contains-unknown_obligations effective input w,
          eq_iff w "",
        ))
        (empty_of_contains _ λ w.
          ground (
            arith,
            p.satisfied w,
            p.clean w,
            contains-violated_rules effective input w,
            eq_iff w "",
          ))

  -- An evaluation without error passes exactly if the assessment and its coverage are complete, the
  -- baseline fits, every required check is closed and none is violated, and no finding counts.
  pub gate_pass_iff :
      (evaluate_quality_gate effective input).1 ≡ none
      → ((evaluate_quality_gate effective input).0.outcome ≡ pass) ↔ Passes
  gate_pass_iff h =
      let e = ap (λ (r : GateResult). r.outcome) (evaluate_result h).0 in
      (λ q. Passes_of_pass (sym e ∙ q), λ p. e ∙ pass_of_Passes p)

  success_conditions :
      (evaluate_quality_gate effective input).1 ≡ none
      → (admit_gate effective input ≡ none)
        × IsKnownMode (to_gate_mode effective.gate_mode)
        × ((input.assessment.completeness ≡ complete)
            ⊎ ((input.coverage.complete ≡ false) ⊎ (unknown_obligations effective input ≢ [])))
  unfolding gate_result decide_outcome
  success_conditions h =
      let (e, a, v) = evaluate_result h in
      let valid = (validate_gate_result_iff (gate_result effective input) input.coverage).0 v in
      (a, valid.4, ground (arith, valid))

  admitted_parts :
      admit_gate effective input ≡ none
      → (is_blank effective.digest ≡ false)
        × (is_blank input.assessment_digest ≡ false)
        × (input.evaluated_at ≢ 0)
  unfolding admit_gate
  admitted_parts h = ground arith

  outcome-IsJustified :
      admit_gate effective input ≡ none
      → ((input.assessment.completeness ≡ complete)
          ⊎ ((input.coverage.complete ≡ false) ⊎ (unknown_obligations effective input ≢ [])))
      → IsJustified
          (gate_result effective input).outcome
          (gate_result effective input)
          input.coverage
  unfolding gate_result decide_outcome
  outcome-IsJustified a c =
      ground
        (arith, (validate_assessment_iff input.assessment input.coverage).0 (admitted_assessment a))

  -- The evaluation returns a result, and no error, exactly if its input is admitted, the policy's
  -- mode is known, and the assessment is complete unless coverage or an obligation is open.
  pub evaluate_succeeds_iff : ((evaluate_quality_gate effective input).1 ≡ none) ↔ (
      (admit_gate effective input ≡ none)
      × IsKnownMode (to_gate_mode effective.gate_mode)
      × ((input.assessment.completeness ≡ complete)
          ⊎ ((input.coverage.complete ≡ false) ⊎ (unknown_obligations effective input ≢ []))))
  unfolding gate_result
  evaluate_succeeds_iff = (
    success_conditions,
    λ (a, m, c).
        let v =
          (validate_assessment_iff input.assessment input.coverage).0 (admitted_assessment a) in
        let p = admitted_parts a in
        ap (λ (r : GateResult × Option Error). r.1)
          (evaluate_of_valid a (
            (validate_gate_result_iff (gate_result effective input) input.coverage).1
              (v.0, v.1, p.1, p.0, m, outcome-IsJustified a c, p.2))),
  )

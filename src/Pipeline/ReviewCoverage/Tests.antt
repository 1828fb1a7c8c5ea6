-- ===== src/Pipeline/ReviewCoverage/Tests.antt =====
-- A review with one active skill beside the checks of CI.
use review.Base.{List, Some, All, String, true, false, [], ◌∷◌, some, ◌≡◌, refl, str_eq, inl, List}
use review.Base.Text.{is_blank, trim_space}
use review.Base.Names.{contains, sorted_copy, insert_sorted}
use review.Review.Check.{Check, CheckStatus, satisfied, violated, CoverageProjection}
use review.Policy.Schema.{lookup}
use review.Policy.Gate.Tests.{policy}
use review.Pipeline.CiGate.{keys}
use review.Pipeline.ReviewCoverage.{
  SkillActivation, Source, merge_gate_check, unique_sorted_strings, merge_review_coverage,
  merged_checks, merge_activations, merge_checks, candidate_of, covered_skills, check_map,
  open_required, missing_required, contains_fold, is_meaningful,
}
use review.Pipeline.ReviewCoverage.Laws.{IsMerged, merge_gate_check-IsMerged}
use review.Pipeline.ReviewCoverage.Doubts.{Unproven}
use review.Pipeline.ReviewCoverage.Blocking.{Unproven-blocks}

abbrev check_of : CheckStatus → List String → Check
check_of status evidence = record {
  id = "unit";
  method_id = "ci";
  scope = "project";
  required = true;
  applicability_reason = "always";
  status = status;
  evidence_refs = evidence;
  status_reason = "";
}

abbrev passed : Check
passed = check_of satisfied ("ci:1" ∷ [])

abbrev failed : Check
failed = check_of violated ("review:2" ∷ [])

merge_gate_check-IsMerged_example : IsMerged passed failed (merge_gate_check (some passed) failed)
merge_gate_check-IsMerged_example = merge_gate_check-IsMerged passed failed (λ h. cc)

abbrev coverage_with : Check → CoverageProjection
coverage_with check = record { checks = check ∷ []; complete = true; unknown_check_ids = [] }

abbrev activation : SkillActivation
activation = record {
  name = "tests";
  review_domain = "";
  required_checks = "unit" ∷ [];
  reason = "code changed";
}

-- The skill says nothing about the check.
abbrev silent : Source
silent = record { skill_coverage = []; skill_activations = activation ∷ [] }

-- The skill says that it ran the check.
abbrev vocal : Source
vocal = record {
  skill_coverage =
      (record {
        name = "tests";
        status = "used";
        evidence = "log" ∷ [];
        tools = [];
        checks = "unit" ∷ [];
      })
      ∷ [];
  skill_activations = activation ∷ [];
}

abbrev same : String → String
same s = s

silence_opens :
    (merge_review_coverage same str_eq policy (coverage_with passed) silent).complete ≡ false
unfolding merge_review_coverage merged_checks merge_activations merge_checks candidate_of
    covered_skills check_map open_required missing_required merge_gate_check unique_sorted_strings
    is_blank trim_space contains sorted_copy insert_sorted lookup keys contains_fold is_meaningful
silence_opens = refl

speech_closes :
    (merge_review_coverage same str_eq policy (coverage_with passed) vocal).complete ≡ true
unfolding merge_review_coverage merged_checks merge_activations merge_checks candidate_of
    covered_skills check_map open_required missing_required merge_gate_check unique_sorted_strings
    is_blank trim_space contains sorted_copy insert_sorted lookup keys contains_fold is_meaningful
speech_closes = refl

violated_closes :
    (merge_review_coverage same str_eq policy (coverage_with failed) silent).complete ≡ true
unfolding merge_review_coverage merged_checks merge_activations merge_checks candidate_of
    covered_skills check_map open_required missing_required merge_gate_check unique_sorted_strings
    is_blank trim_space contains sorted_copy insert_sorted lookup keys contains_fold is_meaningful
violated_closes = refl

unit_required : contains policy.quality_gate.required_coverage "unit" ≡ true
unfolding contains
unit_required = refl

unproven :
    Unproven same str_eq "unit"
      (covered_skills same str_eq [] silent.skill_coverage)
      silent.skill_activations
unfolding covered_skills lookup contains
unproven = inl (refl, refl)

abbrev reported : List Check
reported = (merge_review_coverage same str_eq policy (coverage_with failed) silent).checks

Unproven-blocks_example :
    Some (λ (c : Check). (c.id ≡ "unit") × (c.status ≡ violated)) reported
    × All (λ (c : Check). c.id ≡ "unit" → c.status ≡ violated) reported
Unproven-blocks_example =
    Unproven-blocks same str_eq policy (coverage_with failed) silent "unit" (λ h. cc) unit_required
      unproven violated_closes

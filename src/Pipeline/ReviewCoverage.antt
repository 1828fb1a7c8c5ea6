-- ===== src/Pipeline/ReviewCoverage.antt =====
-- agent/pipeline/ci_gate.go: `mergeReviewCoverage` and `mergeGateCheck`, the records of skills of
-- agent/review/types.go, and three helpers of agent/pipeline/pipeline.go. `to_lower` stands for
-- `strings.ToLower` and `equal_fold` for `strings.EqualFold`. A map is a list of entries, the latest
-- first, that is read by key; its order is lost when its keys are sorted.
pub mod Laws
pub mod Keys
pub mod Doubts
pub mod Blocking
mod Tests
use Prim.Native.String
use review.Base.{
  ℕ, String, Bool, true, false, not, ◌||◌, ◌&&◌, if◌then◌else◌, List, [], ◌∷◌, ◌++◌, any, is_empty,
  ltb, str_eq, Option, none, some,
}
use review.Base.Text.{trim_space, is_blank}
use review.Base.Names.{contains, sorted_copy}
use review.Review.Check.{
  Check, CheckStatus, pending, running, satisfied, violated, unknown, not_applicable,
  CoverageProjection,
}
use review.Policy.Schema.{lookup, EffectivePolicy}
use review.Pipeline.CiGate.{CheckMap, keys, is_open, checks_at, ids_of}

-- What is read of a skill's activation.
pub record SkillActivation : Type 0 where
  pub name : String
  pub review_domain : String
  pub required_checks : List String
  pub reason : String

-- What is read of a skill's coverage.
pub record SkillCoverage : Type 0 where
  pub name : String
  pub status : String
  pub evidence : List String
  pub tools : List String
  pub checks : List String

pub record Source : Type 0 where
  pub skill_coverage : List SkillCoverage
  pub skill_activations : List SkillActivation

-- The values of the set of `uniqueSortedStrings`, each once.
unfoldable pub present_keys : List String → List String
present_keys [] = []
present_keys (value ∷ values) =
    let rest = present_keys values in
    if is_blank value || contains rest value then rest else value ∷ rest

-- `uniqueSortedStrings`
unfoldable pub unique_sorted_strings : List String → List String
unfolding present_keys
unique_sorted_strings values = sorted_copy (present_keys values)

-- `rank[status]`; a status that is not in the map has rank 0.
abbrev pub rank : CheckStatus → ℕ
rank not_applicable = 1
rank satisfied = 2
rank pending = 3
rank running = 3
rank unknown = 4
rank violated = 5
rank (CheckStatus.other s) = 0

-- `mergeGateCheck`; `none` is the zero check of a key that the map has not.
unfoldable pub merge_gate_check : Option Check → Check → Check
merge_gate_check none candidate = candidate
merge_gate_check (some existing) candidate =
    if str_eq existing.id ""
    then candidate
    else if ltb (rank existing.status) (rank candidate.status)
    then record candidate {
      evidence_refs = unique_sorted_strings (candidate.evidence_refs ++ existing.evidence_refs);
      required = candidate.required || existing.required;
    }
    else record existing {
      evidence_refs = unique_sorted_strings (existing.evidence_refs ++ candidate.evidence_refs);
      required = existing.required || candidate.required;
    }

-- `firstNonEmptyPipeline` of two values
abbrev pub first_non_empty : String → String → String
first_non_empty a b = if not (is_blank a) then a else if not (is_blank b) then b else ""

module _ (to_lower : String → String) (equal_fold : String → String → Bool) where
  -- `skillCoverageIsMeaningful`
  unfoldable pub is_meaningful : SkillCoverage → Bool
  is_meaningful item =
      let status = to_lower (trim_space item.status) in
      if str_eq status "incomplete_batch_coverage"
      then false
      else if any (str_eq status)
          ("" ∷ "missing" ∷ "skipped" ∷ "not_used" ∷ "not-used" ∷ "uncovered" ∷ [])
      then not (is_empty item.evidence) || not (is_empty item.tools)
      else true

  -- `containsStringFold`
  unfoldable pub contains_fold : List String → String → Bool
  contains_fold values want = any (λ value. equal_fold (trim_space value) want) values

  abbrev name_key : String → String
  name_key name = to_lower (trim_space name)

  -- The loop that fills `coveredSkills`.
  unfoldable pub covered_skills :
      List (String × SkillCoverage) → List SkillCoverage → List (String × SkillCoverage)
  covered_skills skills [] = skills
  covered_skills skills (item ∷ items) = covered_skills ((name_key item.name, item) ∷ skills) items

  abbrev establishes : Option SkillCoverage → String → Bool
  establishes none check_id = false
  establishes (some item) check_id = is_meaningful item && contains_fold item.checks check_id

  abbrev evidence_of : Option SkillCoverage → List String
  evidence_of none = []
  evidence_of (some item) = item.evidence

  -- The candidate of one activation for one check.
  unfoldable pub candidate_of :
      List String → Option SkillCoverage → SkillActivation → String → Check
  candidate_of required item activation check_id =
      if establishes item check_id
      then record {
        id = check_id;
        method_id = activation.name;
        scope = first_non_empty activation.review_domain "project";
        required = contains required check_id;
        applicability_reason = activation.reason;
        status = satisfied;
        evidence_refs =
            if is_empty (evidence_of item)
            then String.◌++◌ "review-skill:" activation.name ∷ []
            else evidence_of item;
        status_reason = "";
      }
      else record {
        id = check_id;
        method_id = activation.name;
        scope = first_non_empty activation.review_domain "project";
        required = contains required check_id;
        applicability_reason = activation.reason;
        status = unknown;
        evidence_refs = [];
        status_reason = "active review method did not establish auditable coverage";
      }

  abbrev pub merge_into : CheckMap → String → Check → CheckMap
  merge_into checks id candidate = (id, merge_gate_check (lookup id checks) candidate) ∷ checks

  -- The loop over the required checks of one activation.
  unfoldable pub merge_checks :
      List String → Option SkillCoverage → SkillActivation → List String → CheckMap → CheckMap
  merge_checks required item activation [] checks = checks
  merge_checks required item activation (id ∷ ids) checks =
      merge_checks required item activation ids
        (merge_into checks id (candidate_of required item activation id))

  -- The loop over the activations.
  unfoldable pub merge_activations :
      List String → List (String × SkillCoverage) → List SkillActivation → CheckMap → CheckMap
  merge_activations required skills [] checks = checks
  merge_activations required skills (activation ∷ activations) checks =
      merge_activations required skills activations (
        merge_checks required (lookup (name_key activation.name) skills) activation
          activation.required_checks checks)

  -- The map of the checks of a coverage.
  unfoldable pub check_map : CheckMap → List Check → CheckMap
  check_map entries [] = entries
  check_map entries (check ∷ checks) = check_map ((check.id, check) ∷ entries) checks

  unfoldable pub merged_checks : List String → CoverageProjection → Source → CheckMap
  merged_checks required coverage source =
      merge_activations required (covered_skills [] source.skill_coverage) source.skill_activations
        (check_map [] coverage.checks)

  -- The two loops that fill `unknown`: over the sorted keys of the checks, and over the required ones.
  unfoldable pub open_required : List String → CheckMap → List String → List String
  open_required required checks [] = []
  open_required required checks (id ∷ ids) =
      if contains required id && is_open (lookup id checks)
      then id ∷ open_required required checks ids
      else open_required required checks ids

  abbrev is_missing : Option Check → Bool
  is_missing none = true
  is_missing (some check) = false

  unfoldable pub missing_required : CheckMap → List String → List String
  missing_required checks [] = []
  missing_required checks (id ∷ ids) =
      if is_missing (lookup id checks)
      then id ∷ missing_required checks ids
      else missing_required checks ids

  -- `mergeReviewCoverage`
  unfoldable pub merge_review_coverage :
      EffectivePolicy → CoverageProjection → Source → CoverageProjection
  unfolding keys
  merge_review_coverage effective coverage source =
      let required = effective.quality_gate.required_coverage in
      let checks = merged_checks required coverage source in
      let ids = sorted_copy (keys (ids_of checks)) in
      let unknown_ids =
        sorted_copy
          (open_required required checks ids ++ missing_required checks (keys required)) in
      record {
        checks = checks_at checks ids;
        complete = is_empty unknown_ids;
        unknown_check_ids = unknown_ids;
      }

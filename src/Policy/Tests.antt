-- ===== src/Policy/Tests.antt =====
-- The parts of a policy at small inputs.
use review.Base.{
  ◌≤◌, String, true, false, not, ◌&&◌, ◌≡◌, ◌≢◌, ◌↔◌, refl, List, [], ◌∷◌, none, some, ok, err, All,
  length, arith,
}
use review.Base.Text.{is_blank}
use review.Base.Names.{contains}
use review.Base.Names.Canonical.{IsNodup}
use review.Policy.Schema.{PublicationConstraint, Delegation, MethodPack, EffectivePolicy}
use review.Policy.Publication.{restrictive_publication, risk_rank}
use review.Policy.Publication.Laws.{restrictive_publication_comm}
use review.Policy.Ceilings.{enforce_runtime_ceilings}
use review.Policy.Ceilings.Laws.{IsCapped, enforce_runtime_ceilings_iff}
use review.Policy.Glob.{codes, bytes, glob_match, any_glob}
use review.Policy.Glob.Meaning.{Globs, glob_match_iff}
use review.Policy.Glob.Plain.{is_ascii, glob_match_self}
use review.Policy.Ids.{
  valid_id, unique_ids, unique_strings, enum, unique_enum, validate_globs, check_glob,
}
use review.Policy.DocumentRefs.{validate_document_refs, matches_path_pattern}
use review.Policy.DocumentRefs.Laws.{IsConfined, validate_document_refs-IsConfined}
use review.Policy.PathSyntax.{
  has_byte, split_slash, starts_at_root, single_stars, is_well_formed, clean, ext,
}
use review.Policy.Delegations.{validate_delegation, validate_scope_ref, delegation_scope_contained}
use review.Policy.Delegations.Laws.{validate_delegation-IsAuthoritative}
use review.Policy.Scopes.{scope_matches}
use review.Policy.Replacement.{check_replacement, replace_fields, apply_delegated_replacement}
use review.Policy.Replacement.Laws.{
  IsAuthorised, apply_delegated_replacement_iff, apply_delegated_replacement_confined,
}
use review.Policy.Inheritance.{expand_packs, out_of_fuel}
use review.Policy.Inheritance.Fuel.{expand_packs_total}
use review.Policy.Inheritance.Expansion.{AreExpanded, expand_packs_sound}
use review.Policy.Compile.{initial_policy}
use review.Policy.Compile.Tests.{limits, packs, pack_of, config, context, expanded, expands}

abbrev by_hand : PublicationConstraint
by_hand = record {
  mode = "human_authorized";
  artifact_classes = "comment" ∷ "check" ∷ [];
  manual_required = true;
  artifact_classes_restricted = false;
}

abbrev checks_only : PublicationConstraint
checks_only = record {
  mode = "inherit";
  artifact_classes = "check" ∷ [];
  manual_required = false;
  artifact_classes_restricted = true;
}

abbrev grant : PublicationConstraint
grant = record {
  mode = "setup_grant";
  artifact_classes = [];
  manual_required = false;
  artifact_classes_restricted = false;
}

restrictive_publication_comm_example :
    restrictive_publication (restrictive_publication grant by_hand) checks_only
    ≡ restrictive_publication (restrictive_publication grant checks_only) by_hand
restrictive_publication_comm_example = restrictive_publication_comm grant by_hand checks_only

enforce_runtime_ceilings_iff_example :
    (enforce_runtime_ceilings limits (some limits) ≡ none) ↔ IsCapped limits limits
enforce_runtime_ceilings_iff_example = enforce_runtime_ceilings_iff limits limits

deep : glob_match "api/**/?.go" "api/v1/x/a.go" ≡ true
unfolding glob_match
deep = refl

shallow : glob_match "api/*.go" "api/v1/a.go" ≡ false
unfolding glob_match
shallow = refl

glob_match_iff_example :
    (glob_match "api/**" "api/v1" ≡ true) ↔ Globs (bytes "api/**") (codes "api/v1")
glob_match_iff_example = glob_match_iff "api/**" "api/v1"

glob_match_self_example : glob_match "é" "é" ≡ is_ascii "é"
unfolding bytes
glob_match_self_example = glob_match_self "é" (((λ h. cc), (λ h. cc)), (((λ h. cc), (λ h. cc)), tt))

abbrev ids : List String
ids = "a" ∷ "b" ∷ []

abbrev refs : List String
refs = ".7review/rules/go.md" ∷ []

refs_valid : validate_document_refs "rule_refs" refs "rules" ≡ none
unfolding validate_document_refs contains clean ext has_byte split_slash matches_path_pattern
refs_valid = refl

validate_document_refs-IsConfined_example :
    (length refs ≤ 256) × IsNodup refs × All (IsConfined "rules") refs
validate_document_refs-IsConfined_example =
    validate_document_refs-IsConfined "rule_refs" refs "rules"
      ((λ x. cc), ((λ x. cc), ((λ x. cc), ((λ x. cc), ((λ x. cc), tt))))) refs_valid

expand_packs_total_example :
    expand_packs (pack_of "a" ("b" ∷ []) [] [] "none" ∷ pack_of "b" ("a" ∷ []) [] [] "none" ∷ [])
    ≢ err out_of_fuel
expand_packs_total_example =
    expand_packs_total
      (pack_of "a" ("b" ∷ []) [] [] "none" ∷ pack_of "b" ("a" ∷ []) [] [] "none" ∷ [])

expand_packs_sound_example : AreExpanded packs packs expanded
expand_packs_sound_example = expand_packs_sound packs expanded expands

abbrev delegation : Delegation
delegation = record {
  id = "d1";
  grantor_scope = record { kind = "project"; id = "acme" };
  target_scope = record { kind = "path"; id = "api/**" };
  replace_rule_ids = "review" ∷ [];
  replace_fields = "methods" ∷ "risk_floor" ∷ [];
  constraints = record {
    max_risk = "high";
    allowed_method_ids = [];
    allowed_check_ids = "contract" ∷ [];
    expires_at = some 9000;
  };
  provenance_ref = "grant:1";
}

delegation_valid : validate_delegation delegation config ≡ none
unfolding validate_delegation validate_scope_ref delegation_scope_contained unique_ids
    unique_strings unique_enum enum valid_id validate_globs check_glob contains is_blank has_byte
    split_slash starts_at_root single_stars is_well_formed
delegation_valid = refl

target_matched : scope_matches delegation.target_scope config context ≡ true
unfolding scope_matches any_glob glob_match
target_matched = refl

validate_delegation-IsAuthoritative_example :
    scope_matches delegation.grantor_scope config context ≡ true
validate_delegation-IsAuthoritative_example =
    validate_delegation-IsAuthoritative delegation config context delegation_valid target_matched

abbrev start : EffectivePolicy
start = initial_policy config context

abbrev api : MethodPack
api = pack_of "api" [] ("api/**" ∷ []) ("contract" ∷ []) "high"

apply_delegated_replacement_iff_example :
    ((e' : EffectivePolicy) × (apply_delegated_replacement start api delegation 5000 ≡ ok e'))
    ↔ IsAuthorised api delegation 5000
apply_delegated_replacement_iff_example = apply_delegated_replacement_iff start api delegation 5000

replaces :
    apply_delegated_replacement start api delegation 5000 ≡ ok (replace_fields start api delegation)
unfolding apply_delegated_replacement check_replacement contains risk_rank
replaces = refl

apply_delegated_replacement_confined_example :
    let e' = replace_fields start api delegation in
    ((w : String)
      → contains e'.methods w ≡ (
          contains start.methods w
          && not (
              contains delegation.replace_fields "methods"
              && contains delegation.replace_rule_ids w)))
    × ((w : String)
        → contains e'.required_checks w ≡ (
            contains start.required_checks w
            && not (
                contains delegation.replace_fields "checks"
                && contains delegation.replace_rule_ids w)))
    × (contains delegation.replace_fields "risk_floor" ≡ false → e'.risk_floor ≡ start.risk_floor)
    × (contains delegation.replace_fields "independent_review" ≡ false
        → e'.independent_review ≡ start.independent_review)
    × (contains delegation.replace_fields "publication" ≡ false
        → e'.publication ≡ start.publication)
    × (e'.quality_gate ≡ start.quality_gate)
apply_delegated_replacement_confined_example =
    apply_delegated_replacement_confined start api delegation 5000
      (replace_fields start api delegation) replaces

same_names : (w : String) → contains ("b" ∷ "a" ∷ "b" ∷ []) w ≡ contains ("a" ∷ "b" ∷ []) w
unfolding contains
same_names w = ground arith

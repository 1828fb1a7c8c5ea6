-- ===== src/Policy/Delegations.antt =====
-- agent/policy/validate.go: delegations and the scopes that they name. The index in an error's prefix
-- is left out.
pub mod Laws
use Prim.Native.Char.{Char, code}
use Prim.Native.String
use review.Base.{
  ℕ, String, Bool, true, false, not, ◌||◌, ◌&&◌, List, [], ◌∷◌, if◌then◌else◌, ◌==◌, leb, ltb,
  str_eq, length, is_empty, any, Option, none, some, Error, new, errorf, ◌>>◌, fail_if, Result, ok,
  err,
}
use review.Base.Int.{ℤ, pos, ltb_ℤ, leb_ℤ, eqb_ℤ}
use review.Base.Text.{is_blank}
use review.Base.Names.{contains}
use review.Policy.Schema.{
  lookup, Triggers, ScopeRef, Delegation, Match, PublicationConstraint, MethodPack, QualityGate,
  ReviewConfig,
}
use review.Policy.Scopes.{globs_of}
use review.Policy.Ceilings.{validate_limits}
use review.Policy.Ids.{valid_id, unique_strings, unique_ids, enum, unique_enum, validate_globs}
use review.Policy.DocumentRefs.{validate_document_refs}
use review.Policy.Inheritance.{expand_packs}
use review.Policy.Triggers.{has_key}

scope_exists : ScopeRef → ReviewConfig → Bool
scope_exists scope c =
    if str_eq scope.kind "project"
    then str_eq scope.id c.project_id || str_eq c.project_id ""
    else if str_eq scope.kind "domain"
    then has_key scope.id c.domains
    else if str_eq scope.kind "module"
    then has_key scope.id c.modules
    else if str_eq scope.kind "feature"
    then has_key scope.id c.features
    else false

-- `validateScope`
unfoldable pub validate_scope_ref : String → ScopeRef → ReviewConfig → Option Error
unfolding scope_exists
validate_scope_ref name scope c = do
  enum (String.◌++◌ name ".kind") scope.kind
      ("project" ∷ "domain" ∷ "module" ∷ "feature" ∷ "path" ∷ [])
  if str_eq scope.kind "path" then validate_globs (String.◌++◌ name ".id") (scope.id ∷ []) else (do
    fail_if (not (valid_id scope.id)) (errorf "policy: %s.id is invalid" (name ∷ []))
    fail_if (not (scope_exists scope c))
        (errorf "policy: %s references unknown scope %q" (name ∷ scope.id ∷ [])))

-- `delegationScopeContained`
unfoldable pub delegation_scope_contained : ScopeRef → ScopeRef → ReviewConfig → Bool
delegation_scope_contained grantor target c =
    if str_eq grantor.kind "project"
    then str_eq c.project_id "" || str_eq grantor.id c.project_id
    else if str_eq grantor.kind target.kind && str_eq grantor.id target.id
    then true
    else if not (str_eq target.kind "path")
    then false
    else any (λ glob. str_eq glob target.id)
        (if str_eq grantor.kind "domain"
          then globs_of c.domains grantor.id
          else if str_eq grantor.kind "module"
          then globs_of c.modules grantor.id
          else if str_eq grantor.kind "feature"
          then globs_of c.features grantor.id
          else if str_eq grantor.kind "path"
          then grantor.id ∷ []
          else [])

-- `validateDelegation`
unfoldable pub validate_delegation : Delegation → ReviewConfig → Option Error
validate_delegation d c = do
  fail_if (not (valid_id d.id) || is_blank d.provenance_ref)
      (new "policy: delegations[%d] requires valid id and provenance_ref")
  validate_scope_ref "delegations[%d].grantor_scope" d.grantor_scope c
  validate_scope_ref "delegations[%d].target_scope" d.target_scope c
  fail_if (not (delegation_scope_contained d.grantor_scope d.target_scope c))
      (new "policy: delegations[%d] target scope is not provably contained by its grantor")
  fail_if (is_empty d.replace_rule_ids && is_empty d.replace_fields)
      (new "policy: delegations[%d] requires a replacement")
  unique_ids "delegations[%d].replace_rule_ids" d.replace_rule_ids 0 128
  unique_enum "delegations[%d].replace_fields" d.replace_fields 16
      ("methods" ∷ "checks" ∷ "risk_floor" ∷ "independent_review" ∷ "publication" ∷ [])
  if str_eq d.constraints.max_risk ""
      then none
      else enum "delegations[%d].constraints.max_risk" d.constraints.max_risk
          ("low" ∷ "medium" ∷ "high" ∷ "critical" ∷ [])
  unique_ids "delegations[%d].constraints.allowed_method_ids" d.constraints.allowed_method_ids 0 128
  unique_ids "delegations[%d].constraints.allowed_check_ids" d.constraints.allowed_check_ids 0 128

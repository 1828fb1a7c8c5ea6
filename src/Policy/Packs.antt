-- ===== src/Policy/Packs.antt =====
-- agent/policy/validate.go: method packs, what they match and how they constrain publication. The Go
-- loop over the seven families runs in no fixed order; here it runs in the order of the literal. The
-- index in an error's prefix is left out.
use Prim.Native.String
use review.Base.{
  String, Bool, true, false, not, ◌||◌, ◌&&◌, List, [], ◌∷◌, if◌then◌else◌, ltb, str_eq, length,
  is_empty, Option, none, some, Error, new, errorf, ◌>>◌, fail_if,
}
use review.Policy.Schema.{Delegation, Match, PublicationConstraint, MethodPack, ReviewConfig}
use review.Policy.Ids.{valid_id, unique_strings, unique_ids, enum, unique_enum, validate_globs}
use review.Policy.DocumentRefs.{validate_document_refs}
use review.Policy.Triggers.{has_key}

abbrev values_of : Option (List String) → List String
values_of none = []
values_of (some values) = values

check_family : String → String → List String → Option Error
check_family name family values = do
  fail_if (ltb 128 (length values))
      (errorf "policy: %s.%s exceeds maximum 128" (name ∷ family ∷ []))
  unique_strings (String.◌++◌ name (String.◌++◌ "." family)) values false

check_known : String → String → List String → List (String × List String) → Option Error
check_known text name [] mappings = none
check_known text name (id ∷ ids) mappings = do
  fail_if (not (has_key id mappings)) (errorf text (name ∷ id ∷ []))
  check_known text name ids mappings

-- `validateMatch`
unfoldable pub validate_match : String → Match → ReviewConfig → Option Error
unfolding check_family check_known
validate_match name m c = do
  check_family name "domains" (values_of m.domains)
  check_family name "modules" (values_of m.modules)
  check_family name "features" (values_of m.features)
  check_family name "paths" (values_of m.paths)
  check_family name "branches" (values_of m.branches)
  check_family name "authors" (values_of m.authors)
  check_family name "labels" (values_of m.labels)
  check_known "policy: %s references unknown domain %q" name (values_of m.domains) c.domains
  check_known "policy: %s references unknown module %q" name (values_of m.modules) c.modules
  check_known "policy: %s references unknown feature %q" name (values_of m.features) c.features
  validate_globs (String.◌++◌ name ".paths") (values_of m.paths)

abbrev publication_modes : Bool → List String
publication_modes inherit =
    if inherit
    then "none" ∷ "human_authorized" ∷ "setup_grant" ∷ "inherit" ∷ []
    else "none" ∷ "human_authorized" ∷ "setup_grant" ∷ []

-- `validatePublication`
unfoldable pub validate_publication : String → PublicationConstraint → Bool → Option Error
validate_publication name p inherit = do
  enum (String.◌++◌ name ".mode") p.mode (publication_modes inherit)
  unique_enum (String.◌++◌ name ".artifact_classes") p.artifact_classes 5
      ("assessment" ∷ "comment" ∷ "check" ∷ "annotation" ∷ "code_quality" ∷ [])

unfoldable pub has_delegation : List Delegation → String → Bool
has_delegation [] id = false
has_delegation (d ∷ ds) id = str_eq d.id id || has_delegation ds id

-- `validatePack`; the map of delegations is read for its keys alone
unfoldable pub validate_pack : MethodPack → ReviewConfig → List Delegation → Option Error
unfolding has_delegation
validate_pack p c delegations = do
  fail_if (not (valid_id p.id)) (new "policy: packs[%d].id is invalid")
  unique_ids "packs[%d].inherits" p.inherits 0 32
  validate_document_refs "packs[%d].rule_refs" p.rule_refs "rules"
  unique_ids "packs[%d].methods" p.methods 0 32
  unique_ids "packs[%d].checks" p.checks 0 128
  enum "packs[%d].risk_floor" p.risk_floor ("none" ∷ "low" ∷ "medium" ∷ "high" ∷ "critical" ∷ [])
  fail_if
      (is_empty p.methods
        && is_empty p.checks
        && str_eq p.risk_floor "none"
        && is_empty p.inherits
        && is_empty p.rule_refs)
      (new "policy: packs[%d] has no effective obligation")
  validate_match "packs[%d].match" p.match c
  validate_publication "packs[%d].publication" p.publication true
  fail_if (not (str_eq p.delegation_id "") && not (has_delegation delegations p.delegation_id))
      (errorf "policy: packs[%d] references unknown delegation %q" (p.delegation_id ∷ []))

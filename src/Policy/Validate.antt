-- ===== src/Policy/Validate.antt =====
-- agent/policy/validate.go: the quality gate's settings and the whole policy document.
pub mod Laws
use Prim.Native.Char.{Char, code}
use Prim.Native.String
use review.Base.{
  ℕ, String, Bool, true, false, not, ◌||◌, ◌&&◌, List, [], ◌∷◌, if◌then◌else◌, ◌==◌, leb, ltb,
  str_eq, length, is_empty, any, Option, none, some, Error, new, errorf, ◌>>◌, fail_if, Result, ok,
  err,
}
use review.Base.Int.{ℤ, pos, ltb_ℤ, leb_ℤ, eqb_ℤ}
use review.Base.Text.{is_blank}
use review.Base.Names.{contains}
use review.Policy.Schema.{
  lookup, Triggers, ScopeRef, Delegation, Match, PublicationConstraint, MethodPack, QualityGate,
  ReviewConfig,
}
use review.Policy.Scopes.{globs_of}
use review.Policy.Ceilings.{validate_limits}
use review.Policy.Ids.{valid_id, unique_strings, unique_ids, enum, unique_enum, validate_globs}
use review.Policy.DocumentRefs.{validate_document_refs}
use review.Policy.Inheritance.{expand_packs}
use review.Policy.Triggers.{validate_triggers, validate_mappings}
use review.Policy.Delegations.{validate_delegation}
use review.Policy.Packs.{validate_pack}

abbrev return_error {ℓ} : {A : Type ℓ} → Result A → Option Error
return_error (ok a) = none
return_error (err e) = some e

-- `strings.IndexFunc(s, func(r) { r < 32 || r == 127 }) >= 0`
unfoldable pub has_control : String → Bool
has_control String.[] = false
has_control (String.◌∷◌ c s) = ltb (code c) 32 || code c == 127 || has_control s

-- `validateQualityGate`
unfoldable pub validate_quality_gate : QualityGate → String → Option Error
unfolding has_control
validate_quality_gate g mode = do
  unique_ids "quality_gate.rule_ids" g.rule_ids 0 128
  unique_ids "quality_gate.required_coverage" g.required_coverage 0 128
  fail_if (str_eq mode "blocking" && is_empty g.required_coverage)
      (new "policy: blocking quality gate requires coverage")
  enum "quality_gate.min_severity" g.min_severity
      ("info" ∷ "low" ∷ "medium" ∷ "high" ∷ "critical" ∷ [])
  enum "quality_gate.min_strength" g.min_strength ("confirmed" ∷ "human_check" ∷ "note" ∷ [])
  enum "quality_gate.baseline_mode" g.baseline_mode ("all" ∷ "new" ∷ "changed" ∷ [])
  fail_if
      (ltb (String.len g.context_name) 1
        || ltb 100 (String.len g.context_name)
        || has_control g.context_name)
      (new "policy: quality_gate.context_name must be 1-100 printable bytes")
  fail_if (contains g.required_coverage g.context_name)
      (new "policy: quality gate cannot require its own native context")

-- The loop over the required capabilities.
check_capabilities : List String → List String → Option Error
check_capabilities allowed [] = none
check_capabilities allowed (capability ∷ required) = do
  fail_if (not (contains allowed capability))
      (errorf "policy: required capability %q is not allowed" (capability ∷ []))
  check_capabilities allowed required

-- The loops over delegations and packs; `seen` holds the keys of the map.
check_delegations : ReviewConfig → List String → List Delegation → Option Error
check_delegations c seen [] = none
check_delegations c seen (d ∷ ds) =
    let rest = check_delegations c (d.id ∷ seen) ds in
    (do
      validate_delegation d c
      fail_if (contains seen d.id) (errorf "policy: duplicate delegation id %q" (d.id ∷ []))
      rest)

check_packs : ReviewConfig → List String → List MethodPack → Option Error
check_packs c seen [] = none
check_packs c seen (p ∷ ps) =
    let rest = check_packs c (p.id ∷ seen) ps in
    (do
      validate_pack p c c.delegations
      fail_if (contains seen p.id) (errorf "policy: duplicate pack id %q" (p.id ∷ []))
      rest)

-- `Validate`
unfoldable pub validate : ReviewConfig → Option Error
unfolding check_capabilities check_delegations check_packs
validate c = do
  fail_if (not (eqb_ℤ c.schema_version (pos 2))) (new "policy: schema_version must be 2")
  fail_if (not (str_eq c.project_id "") && not (valid_id c.project_id))
      (errorf "policy: invalid project_id %q" (c.project_id ∷ []))
  unique_ids "defaults.methods" c.defaults.methods 1 32
  enum "defaults.publication" c.defaults.publication
      ("none" ∷ "human_authorized" ∷ "setup_grant" ∷ [])
  enum "defaults.gate_mode" c.defaults.gate_mode ("advisory" ∷ "blocking" ∷ [])
  unique_ids "defaults.required_checks" c.defaults.required_checks 0 128
  validate_limits c.limits
  validate_triggers c.triggers
  unique_ids "capabilities.allowed" c.capabilities.allowed 0 128
  unique_ids "capabilities.required" c.capabilities.required 0 128
  check_capabilities c.capabilities.allowed c.capabilities.required
  validate_mappings "domains" c.domains
  validate_mappings "modules" c.modules
  validate_mappings "features" c.features
  fail_if (ltb 256 (length c.delegations)) (new "policy: delegations exceeds maximum 256")
  check_delegations c [] c.delegations
  fail_if (ltb 256 (length c.packs)) (new "policy: packs exceeds maximum 256")
  check_packs c [] c.packs
  validate_document_refs "pack_refs" c.pack_refs "packs"
  validate_document_refs "rule_refs" c.rule_refs "rules"
  if is_empty c.pack_refs then return_error (expand_packs c.packs) else none
  validate_quality_gate c.quality_gate c.defaults.gate_mode
  fail_if
      (leb_ℤ c.retention.audit_days (pos 0)
        || leb_ℤ c.retention.source_days (pos 0)
        || leb_ℤ c.retention.unresolved_reservation_days (pos 0))
      (new "policy: retention periods must be positive")
  fail_if (ltb_ℤ c.retention.unresolved_reservation_days c.retention.audit_days)
      (new "policy: unresolved reservations cannot expire before audit reconciliation")

-- ===== src/Policy/Compile.antt =====
-- agent/policy/compile.go: `Compile`, which makes one effective policy of a document and a change.
-- `digest_of` stands for the canonical JSON of its arguments and the SHA-256 of it.
pub mod Steps
pub mod Strictness
pub mod Applying
pub mod Tightening
pub mod Laws
pub mod Tests
use Prim.Native.String
use review.Base.{
  String, Bool, true, false, not, ◌||◌, ◌&&◌, List, [], ◌∷◌, ◌++◌, if◌then◌else◌, str_eq, is_empty,
  ltb, Option, none, some, Error, new, errorf, ◌>>◌, fail_if, Result, ok, err, bind, ◌then_ok◌, map,
}
use review.Base.Int.{ℤ, pos, negsuc, ltb_ℤ, eqb_ℤ}
use review.Base.Names.{contains, stable_union, sorted_copy}
use review.Base.Names.Order.{str_ltb}
use review.Policy.Schema.{
  EffectivePolicy, ExplanationEntry, MethodPack, Delegation, ReviewConfig, CompileContext,
  PublicationConstraint, QualityGate, Limits,
}
use review.Policy.PathSyntax.{join}
use review.Policy.Publication.{risk_rank, restrictive_publication}
use review.Policy.Ceilings.{enforce_runtime_ceilings}
use review.Policy.Scopes.{pack_matches, scope_matches}
use review.Policy.Inheritance.{expand_packs, all_classes}
use review.Policy.Rules.{require_resolved_rules, apply_rules}
use review.Policy.Replacement.{apply_delegated_replacement}
use review.Policy.Validate.{validate}

abbrev pub explain : String → String → String → String → ℤ → ExplanationEntry
explain field value source reason precedence = record {
  field = field;
  value = value;
  source = source;
  reason = reason;
  precedence = precedence;
}

-- `ctx.RuntimeAllowed == nil || runtime[capability]`
abbrev pub is_available : Option (List String) → String → Bool
is_available none capability = true
is_available (some runtime) capability = contains runtime capability

unfoldable pub keep_available : Option (List String) → List String → List String
keep_available runtime [] = []
keep_available runtime (capability ∷ capabilities) =
    if is_available runtime capability
    then capability ∷ keep_available runtime capabilities
    else keep_available runtime capabilities

check_available : Option (List String) → List String → Option Error
check_available runtime [] = none
check_available runtime (capability ∷ capabilities) = do
  fail_if (not (is_available runtime capability))
      (errorf "policy: required capability %q is unavailable at runtime" (capability ∷ []))
  check_available runtime capabilities

-- The tests before anything is built.
unfoldable pub admit_config : ReviewConfig → CompileContext → Option Error
unfolding check_available
admit_config config ctx = do
  fail_if (not (is_empty config.pack_refs))
      (new "policy: unresolved pack references; resolve trusted documents before compilation")
  require_resolved_rules config
  validate config
  fail_if
      (not (str_eq config.project_id "")
        && not (str_eq ctx.project_id "")
        && not (str_eq config.project_id ctx.project_id))
      (errorf "policy: authenticated project %q does not match policy project %q"
        (ctx.project_id ∷ config.project_id ∷ []))
  enforce_runtime_ceilings config.limits ctx.runtime_ceilings
  check_available ctx.runtime_allowed config.capabilities.required

-- The literal that `effective` starts from.
unfoldable pub initial_policy : ReviewConfig → CompileContext → EffectivePolicy
initial_policy config ctx = record {
  schema_version = pos 2;
  digest = "";
  methods = config.defaults.methods;
  required_checks =
      stable_union config.defaults.required_checks config.quality_gate.required_coverage;
  risk_floor = "none";
  independent_review = false;
  publication = record {
    mode = config.defaults.publication;
    artifact_classes = all_classes;
    manual_required = false;
    artifact_classes_restricted = false;
  };
  gate_mode = config.defaults.gate_mode;
  quality_gate = config.quality_gate;
  allowed_tools = keep_available ctx.runtime_allowed config.capabilities.allowed;
  required_tools = config.capabilities.required;
  limits = config.limits;
  operator_ceilings = ctx.runtime_ceilings;
  matched_packs = [];
  explanation =
      explain "methods" (join "," config.defaults.methods) "defaults" "trusted project defaults"
        (negsuc 0)
      ∷ explain "publication" config.defaults.publication "defaults" "trusted project default"
          (negsuc 0)
      ∷ [];
  documents = config.documents;
  rules = [];
}

-- The order of `sort.Slice`: by falling priority, then by name.
abbrev pub pack_before : MethodPack → MethodPack → Bool
pack_before a b =
    if eqb_ℤ a.priority b.priority then str_ltb a.id b.id else ltb_ℤ b.priority a.priority

unfoldable pub insert_pack : MethodPack → List MethodPack → List MethodPack
insert_pack p [] = p ∷ []
insert_pack p (q ∷ qs) = if pack_before q p then q ∷ insert_pack p qs else p ∷ q ∷ qs

unfoldable pub sort_packs : List MethodPack → List MethodPack
sort_packs [] = []
sort_packs (p ∷ ps) = insert_pack p (sort_packs ps)

-- `delegations[id]`, where a later one of the same ID wins
unfoldable pub find_delegation : List Delegation → String → Option Delegation
find_delegation [] id = none
find_delegation (d ∷ ds) id = elim (find_delegation ds id) [
  | some found ↦ some found
  | none ↦ if str_eq d.id id then some d else none
]

abbrev pub zero_delegation : Delegation
zero_delegation = record {
  id = "";
  grantor_scope = record { kind = ""; id = "" };
  target_scope = record { kind = ""; id = "" };
  replace_rule_ids = [];
  replace_fields = [];
  constraints = record {
    max_risk = "";
    allowed_method_ids = [];
    allowed_check_ids = [];
    expires_at = none;
  };
  provenance_ref = "";
}

unfoldable pub delegation_of : ReviewConfig → String → Delegation
delegation_of config id = elim (find_delegation config.delegations id) [
  | none ↦ zero_delegation
  | some d ↦ d
]

-- What a matched pack adds, after its delegation if it has one.
unfoldable pub apply_pack : EffectivePolicy → ReviewConfig → MethodPack → EffectivePolicy
apply_pack e config pack =
    let ruled =
      apply_rules (record e { matched_packs = e.matched_packs ++ pack.id ∷ [] }) config
        pack.rule_refs pack.priority in
    let gate = ruled.quality_gate in
    let source : String = String.◌++◌ "packs/" pack.id in
    let floor =
      if ltb (risk_rank ruled.risk_floor) (risk_rank pack.risk_floor)
      then pack.risk_floor
      else ruled.risk_floor in
    record ruled {
      methods = stable_union ruled.methods pack.methods;
      required_checks = stable_union ruled.required_checks pack.checks;
      quality_gate = record gate {
        required_coverage = stable_union gate.required_coverage pack.checks;
      };
      risk_floor = floor;
      independent_review = ruled.independent_review || pack.independent_review;
      publication = restrictive_publication ruled.publication pack.publication;
      explanation =
          ruled.explanation
          ++ ((if is_empty pack.inherits
                then []
                else explain "inherits" (join "," (sorted_copy pack.inherits)) source
                    "parent obligations expanded without inheriting match, priority or delegation"
                    pack.priority
                  ∷ [])
              ++ explain "pack" pack.id source "all declared predicate families matched"
                  pack.priority
                ∷ explain "risk_floor" floor source "maximum applicable risk floor" pack.priority
                ∷ []);
    }

-- The body of the loop for a pack that names a delegation.
unfoldable pub compile_delegated :
    ReviewConfig
    → CompileContext
    → EffectivePolicy
    → MethodPack
    → Delegation
    → Result EffectivePolicy
compile_delegated config ctx e pack d =
    if not (scope_matches d.target_scope config ctx)
    then ok e
    else if not (scope_matches d.grantor_scope config ctx)
    then err (
        errorf "policy: delegation %q grantor is not authoritative for the matched change"
          (d.id ∷ []))
    else bind (apply_delegated_replacement e pack d ctx.evaluation_time)
        λ replaced. ok (apply_pack replaced config pack)

-- The body of the loop.
unfoldable pub compile_pack :
    ReviewConfig → CompileContext → EffectivePolicy → MethodPack → Result EffectivePolicy
compile_pack config ctx e pack =
    if not (pack_matches pack.match config ctx)
    then ok e
    else if str_eq pack.delegation_id ""
    then ok (apply_pack e config pack)
    else compile_delegated config ctx e pack (delegation_of config pack.delegation_id)

unfoldable pub compile_packs :
    ReviewConfig → CompileContext → EffectivePolicy → List MethodPack → Result EffectivePolicy
compile_packs config ctx e [] = ok e
compile_packs config ctx e (pack ∷ packs) =
    bind (compile_pack config ctx e pack) λ e'. compile_packs config ctx e' packs

-- Gate coverage is mandatory and cannot be removed through delegation.
unfoldable pub require_gate_coverage : EffectivePolicy → EffectivePolicy
require_gate_coverage e = record e {
  required_checks = stable_union e.required_checks e.quality_gate.required_coverage;
}

-- The context as it enters the digest; the flag is `ctx.RuntimeAllowed != nil`.
abbrev pub canonical_context : CompileContext → CompileContext
canonical_context ctx = record ctx {
  changed_paths = sorted_copy ctx.changed_paths;
  labels = sorted_copy ctx.labels;
  runtime_allowed = elim ctx.runtime_allowed [ none ↦ none | some r ↦ some (sorted_copy r) ];
  evaluation_time = 0;
}

-- `Compile`
unfoldable pub compile :
    (ReviewConfig → CompileContext → Result String)
    → ReviewConfig
    → CompileContext
    → Result EffectivePolicy
compile digest_of config ctx =
    admit_config config ctx
    then_ok (bind (expand_packs config.packs) λ packs.
        bind
          (compile_packs config ctx
            (apply_rules (initial_policy config ctx) config config.default_rule_refs (negsuc 0))
            (sort_packs packs))
          λ compiled. bind (digest_of config (canonical_context ctx)) λ digest.
            (let final = require_gate_coverage compiled in ok (record final { digest = digest })))

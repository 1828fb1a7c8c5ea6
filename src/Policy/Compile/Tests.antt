-- ===== src/Policy/Compile/Tests.antt =====
-- A small project's policy, compiled for a change.
use review.Base.{
  String, true, false, ◌≡◌, refl, List, [], ◌∷◌, Option, none, some, Result, ok, err, All, ◌&&◌,
}
use review.Base.Int.{pos, negsuc}
use review.Base.Names.{contains, add_new, stable_union, insert_sorted, sorted_copy}
use review.Policy.Schema.{
  FixedBudgetPeriod, LimitScope, Limits, MethodPack, ReviewConfig, CompileContext, EffectivePolicy,
  lookup,
}
use review.Policy.Ids.{
  unique_ids, unique_strings, valid_id, enum, unique_enum, validate_globs, check_glob,
}
use review.Policy.PathSyntax.{has_byte, split_slash, starts_at_root, single_stars, is_well_formed}
use review.Policy.Ceilings.{
  validate_limits, has_negative, is_currency, enforce_runtime_ceilings, same_period, check_scope,
}
use review.Policy.Triggers.{validate_triggers, validate_mappings}
use review.Policy.Packs.{validate_pack, validate_match, validate_publication}
use review.Policy.Publication.{risk_rank, publication_rank, keep_classes, restrictive_publication}
use review.Base.Text.{is_blank}
use review.Policy.DocumentRefs.{validate_document_refs}
use review.Policy.Glob.{any_glob, glob_match}
use review.Policy.Scopes.{pack_matches}
use review.Policy.Rules.{apply_rules, require_resolved_rules}
use review.Policy.Ceilings.Laws.{IsCapped}
use review.Policy.Compile.Steps.{is_selected, Covered}
use review.Policy.Compile.Laws.{compile-IsCovered, compile-IsBounded}
use review.Policy.Compile.Strictness.{Tightens, Obeys, Honours}
use review.Policy.Compile.Tightening.{Undelegated, compile-Tightens}
use review.Policy.Validate.{validate, validate_quality_gate}
use review.Policy.Inheritance.{
  expand_packs, visit, visit_new, merge_parents, finish_visit, find_pack, without_obligations,
  merge_pack,
}
use review.Policy.Compile.{
  compile, is_available, admit_config, initial_policy, sort_packs, insert_pack, keep_available,
  compile_packs, compile_pack, apply_pack, require_gate_coverage,
}

abbrev pub month : Option FixedBudgetPeriod
month =
    some (record { kind = "fixed"; anchor = 1000; anchor_utc = true; duration_ms = pos 2592000000 })

abbrev pub scope_of : Option FixedBudgetPeriod → LimitScope
scope_of period = record {
  model_calls = pos 10;
  tool_calls = pos 20;
  input_tokens = pos 1000;
  output_tokens = pos 500;
  money_micro = pos 0;
  active_ms = pos 60000;
  observation_bytes = pos 4096;
  period = period;
}

abbrev pub limits : Limits
limits = record {
  currency = "USD";
  attempt = scope_of none;
  change = scope_of month;
  project = scope_of month;
}

abbrev pub pack_of : String → List String → List String → List String → String → MethodPack
pack_of id inherits paths checks floor = record {
  id = id;
  inherits = inherits;
  rule_refs = [];
  priority = pos 1;
  match = record {
    domains = none;
    modules = none;
    features = none;
    paths = some paths;
    branches = none;
    authors = none;
    labels = none;
  };
  methods = [];
  checks = checks;
  risk_floor = floor;
  independent_review = false;
  publication = record {
    mode = "inherit";
    artifact_classes = [];
    manual_required = false;
    artifact_classes_restricted = false;
  };
  delegation_id = "";
}

abbrev pub packs : List MethodPack
packs =
    pack_of "base" [] ("docs/*" ∷ []) ("lint" ∷ []) "low"
    ∷ pack_of "api" ("base" ∷ []) ("api/**" ∷ []) ("contract" ∷ []) "high"
    ∷ []

abbrev pub config : ReviewConfig
config = record {
  schema_version = pos 2;
  project_id = "acme";
  defaults = record {
    methods = "review" ∷ [];
    replace_default_methods = false;
    publication = "human_authorized";
    gate_mode = "blocking";
    required_checks = [];
  };
  limits = limits;
  triggers = record {
    enabled = true;
    on_updates = true;
    include_drafts = false;
    include_branches = [];
    exclude_branches = [];
    include_authors = [];
    exclude_authors = [];
    include_labels = [];
    exclude_labels = [];
  };
  capabilities = record { allowed = "read_file" ∷ "search" ∷ []; required = "read_file" ∷ [] };
  domains = [];
  modules = [];
  features = [];
  delegations = [];
  packs = packs;
  pack_refs = [];
  rule_refs = [];
  quality_gate = record {
    rule_ids = [];
    required_coverage = "unit" ∷ [];
    min_severity = "high";
    min_strength = "confirmed";
    baseline_mode = "all";
    context_name = "7review";
  };
  retention = record {
    audit_days = pos 30;
    source_days = pos 7;
    unresolved_reservation_days = pos 30;
  };
  extensions_allowed = false;
  documents = [];
  rules = [];
  default_rule_refs = [];
}

abbrev pub context : CompileContext
context = record {
  project_id = "acme";
  changed_paths = "api/v1/users.go" ∷ [];
  branch = "main";
  author = "ana";
  labels = [];
  runtime_allowed = some ("read_file" ∷ []);
  runtime_ceilings = some limits;
  evaluation_time = 5000;
}

-- `digest_of` that always answers.
abbrev pub digest_of : ReviewConfig → CompileContext → Result String
digest_of c ctx = ok "sha256:0"

abbrev value_or {ℓ} : {A : Type ℓ} → A → Result A → A
value_or a (ok b) = b
value_or a (err e) = a

abbrev pub expanded : List MethodPack
expanded = value_or [] (expand_packs packs)

-- The policy after the loop over the packs.
abbrev merged : EffectivePolicy
merged =
    let start = initial_policy config context in
    value_or start (
      compile_packs config context (apply_rules start config config.default_rule_refs (negsuc 0))
        (sort_packs expanded))

abbrev effective : EffectivePolicy
effective = let final = require_gate_coverage merged in record final { digest = "sha256:0" }

config_valid : validate config ≡ none
unfolding validate unique_ids unique_strings valid_id enum validate_limits validate_triggers
    validate_mappings validate_pack validate_match validate_publication unique_enum validate_globs
    check_glob contains expand_packs visit visit_new merge_parents finish_visit find_pack lookup
    without_obligations merge_pack stable_union add_new restrictive_publication keep_classes
    publication_rank risk_rank sorted_copy insert_sorted validate_document_refs
    validate_quality_gate is_blank has_negative is_currency has_byte split_slash starts_at_root
    single_stars is_well_formed
config_valid = refl

pub expands : expand_packs packs ≡ ok expanded
unfolding expand_packs visit visit_new merge_parents finish_visit find_pack lookup
    without_obligations merge_pack stable_union add_new restrictive_publication keep_classes
    publication_rank risk_rank sorted_copy insert_sorted contains
expands = refl

admits : admit_config config context ≡ none
unfolding admit_config require_resolved_rules enforce_runtime_ceilings same_period check_scope
    validate_limits has_negative contains stable_union is_currency
admits = rw config_valid refl

merges :
    compile_packs config context
      (apply_rules (initial_policy config context) config config.default_rule_refs (negsuc 0))
      (sort_packs expanded)
    ≡ ok merged
unfolding expand_packs visit visit_new merge_parents finish_visit find_pack lookup
    without_obligations merge_pack stable_union add_new restrictive_publication keep_classes
    publication_rank risk_rank sorted_copy insert_sorted contains compile_packs compile_pack
    initial_policy apply_rules apply_pack sort_packs insert_pack pack_matches any_glob glob_match
    keep_available
merges = refl

compiles : compile digest_of config context ≡ ok effective
unfolding compile
compiles = rw (admits, expands, merges) refl

tightened :
    (effective.risk_floor ≡ "high")
    × (effective.required_checks ≡ "unit" ∷ "lint" ∷ "contract" ∷ [])
    × (effective.allowed_tools ≡ "read_file" ∷ [])
unfolding expand_packs visit visit_new merge_parents finish_visit find_pack lookup
    without_obligations merge_pack stable_union add_new restrictive_publication keep_classes
    publication_rank risk_rank sorted_copy insert_sorted contains compile_packs compile_pack
    initial_policy apply_rules apply_pack sort_packs insert_pack pack_matches any_glob glob_match
    keep_available require_gate_coverage
tightened = (refl, refl, refl)

undelegated : Undelegated expanded
unfolding expand_packs visit visit_new merge_parents finish_visit find_pack lookup
    without_obligations merge_pack stable_union add_new restrictive_publication keep_classes
    publication_rank risk_rank sorted_copy insert_sorted contains
undelegated = (refl, (refl, tt))

compile-IsCovered_example :
    ((w : String)
      → contains effective.quality_gate.required_coverage w ≡ true
      → contains effective.required_checks w ≡ true)
    × ((w : String)
        → contains config.quality_gate.required_coverage w ≡ true
        → contains effective.quality_gate.required_coverage w ≡ true)
    × All (λ pack. is_selected config context pack ≡ true → Covered effective pack) expanded
compile-IsCovered_example =
    compile-IsCovered digest_of config context effective expanded compiles expands

compile-IsBounded_example :
    (effective.limits ≡ config.limits)
    × ((ceilings : Limits)
        → context.runtime_ceilings ≡ some ceilings
        → IsCapped effective.limits ceilings)
    × ((w : String)
        → contains effective.allowed_tools w
          ≡ (contains config.capabilities.allowed w && is_available context.runtime_allowed w))
    × ((w : String)
        → contains effective.required_tools w ≡ true
        → contains effective.allowed_tools w ≡ true)
compile-IsBounded_example = compile-IsBounded digest_of config context effective compiles

compile-Tightens_example :
    Tightens (initial_policy config context) effective
    × All
        (λ pack. pack_matches pack.match config context ≡ true → Obeys config.rules pack effective)
        expanded
    × Honours effective
compile-Tightens_example =
    compile-Tightens config context digest_of effective expanded compiles expands undelegated

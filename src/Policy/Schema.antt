-- ===== src/Policy/Schema.antt =====
-- The policy document (agent/policy/schema.go), its limits (agent/review/limits.go) and what
-- compilation makes of it (agent/policy/compile.go). A slice that the code compares with nil is an
-- `Option`; a Go map is a list of its entries, read by key.
use review.Base.{String, Bool, Option, none, some, List, [], ◌∷◌, str_eq, if◌then◌else◌}
use review.Base.Int.{ℤ}
use review.Base.Time.{Time}

-- `m[key]`, and whether the key is there
unfoldable pub lookup {ℓ} : {V : Type ℓ} → String → List (String × V) → Option V
lookup key [] = none
lookup key ((k, v) ∷ entries) = if str_eq k key then some v else lookup key entries

pub record FixedBudgetPeriod : Type 0 where
  pub kind : String
  pub anchor : Time
  pub anchor_utc : Bool  -- whether its location is time.UTC
  pub duration_ms : ℤ  -- int64

pub record LimitScope : Type 0 where
  pub model_calls : ℤ  -- int64, as are the other amounts
  pub tool_calls : ℤ
  pub input_tokens : ℤ
  pub output_tokens : ℤ
  pub money_micro : ℤ
  pub active_ms : ℤ
  pub observation_bytes : ℤ
  pub period : Option FixedBudgetPeriod

pub record Limits : Type 0 where
  pub currency : String
  pub attempt : LimitScope
  pub change : LimitScope
  pub project : LimitScope

pub record Defaults : Type 0 where
  pub methods : List String
  pub replace_default_methods : Bool
  pub publication : String
  pub gate_mode : String
  pub required_checks : List String

pub record Triggers : Type 0 where
  pub enabled : Bool
  pub on_updates : Bool
  pub include_drafts : Bool
  pub include_branches : List String
  pub exclude_branches : List String
  pub include_authors : List String
  pub exclude_authors : List String
  pub include_labels : List String
  pub exclude_labels : List String

pub record Capabilities : Type 0 where
  pub allowed : List String
  pub required : List String

pub record ScopeRef : Type 0 where
  pub kind : String
  pub id : String

pub record DelegationConstraints : Type 0 where
  pub max_risk : String
  pub allowed_method_ids : List String
  pub allowed_check_ids : List String
  pub expires_at : Option Time

pub record Delegation : Type 0 where
  pub id : String
  pub grantor_scope : ScopeRef
  pub target_scope : ScopeRef
  pub replace_rule_ids : List String
  pub replace_fields : List String
  pub constraints : DelegationConstraints
  pub provenance_ref : String

pub record Match : Type 0 where
  pub domains : Option (List String)
  pub modules : Option (List String)
  pub features : Option (List String)
  pub paths : Option (List String)
  pub branches : Option (List String)
  pub authors : Option (List String)
  pub labels : Option (List String)

pub record PublicationConstraint : Type 0 where
  pub mode : String
  pub artifact_classes : List String
  pub manual_required : Bool
  pub artifact_classes_restricted : Bool

pub record MethodPack : Type 0 where
  pub id : String
  pub inherits : List String
  pub rule_refs : List String
  pub priority : ℤ  -- int32
  pub match : Match
  pub methods : List String
  pub checks : List String
  pub risk_floor : String
  pub independent_review : Bool
  pub publication : PublicationConstraint
  pub delegation_id : String

pub record QualityGate : Type 0 where
  pub rule_ids : List String
  pub required_coverage : List String
  pub min_severity : String
  pub min_strength : String
  pub baseline_mode : String
  pub context_name : String

pub record Retention : Type 0 where
  pub audit_days : ℤ
  pub source_days : ℤ
  pub unresolved_reservation_days : ℤ

pub record DocumentSource : Type 0 where
  pub kind : String
  pub id : String
  pub path : String
  pub digest : String

-- `ResolvedRule`, with the fields of the embedded `RuleV1`
pub record ResolvedRule : Type 0 where
  pub schema_version : ℤ
  pub id : String
  pub title : String
  pub statement : String
  pub checks : List String
  pub source : DocumentSource

pub record ReviewConfig : Type 0 where
  pub schema_version : ℤ
  pub project_id : String
  pub defaults : Defaults
  pub limits : Limits
  pub triggers : Triggers
  pub capabilities : Capabilities
  pub domains : List (String × List String)
  pub modules : List (String × List String)
  pub features : List (String × List String)
  pub delegations : List Delegation
  pub packs : List MethodPack
  pub pack_refs : List String
  pub rule_refs : List String
  pub quality_gate : QualityGate
  pub retention : Retention
  pub extensions_allowed : Bool
  pub documents : List DocumentSource
  pub rules : List (String × ResolvedRule)
  pub default_rule_refs : List String

pub record ExplanationEntry : Type 0 where
  pub field : String
  pub value : String
  pub source : String
  pub reason : String
  pub precedence : ℤ  -- int32

pub record EffectivePolicy : Type 0 where
  pub schema_version : ℤ
  pub digest : String
  pub methods : List String
  pub required_checks : List String
  pub risk_floor : String
  pub independent_review : Bool
  pub publication : PublicationConstraint
  pub gate_mode : String
  pub quality_gate : QualityGate
  pub allowed_tools : List String
  pub required_tools : List String
  pub limits : Limits
  pub operator_ceilings : Option Limits
  pub matched_packs : List String
  pub explanation : List ExplanationEntry
  pub documents : List DocumentSource
  pub rules : List ResolvedRule

pub record CompileContext : Type 0 where
  pub project_id : String
  pub changed_paths : List String
  pub branch : String
  pub author : String
  pub labels : List String
  pub runtime_allowed : Option (List String)
  pub runtime_ceilings : Option Limits
  pub evaluation_time : Time

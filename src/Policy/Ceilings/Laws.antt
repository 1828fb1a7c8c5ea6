-- ===== src/Policy/Ceilings/Laws.antt =====
-- About `enforceRuntimeCeilings` of agent/policy/compile.go.
use review.Base.{String, true, ◌≡◌, ◌↔◌, Option, none, some, eq_iff, arith}
use review.Base.Int.{◌≤ℤ◌, eqb_ℤ_iff}
use review.Policy.Schema.{FixedBudgetPeriod, LimitScope, Limits}
use review.Policy.Ceilings.{validate_limits, same_period, check_scope, enforce_runtime_ceilings}

-- No resource of the first scope is larger than in the second.
pub record Within (r c : LimitScope) : Type 0 where
  pub model_calls : r.model_calls ≤ℤ c.model_calls
  pub tool_calls : r.tool_calls ≤ℤ c.tool_calls
  pub input_tokens : r.input_tokens ≤ℤ c.input_tokens
  pub output_tokens : r.output_tokens ≤ℤ c.output_tokens
  pub money_micro : r.money_micro ≤ℤ c.money_micro
  pub active_ms : r.active_ms ≤ℤ c.active_ms
  pub observation_bytes : r.observation_bytes ≤ℤ c.observation_bytes

check_scope_iff : (name : String) (r c : LimitScope) → (check_scope name r c ≡ none) ↔ Within r c
unfolding check_scope
check_scope_iff name r c = (λ h. ground arith, λ h. ground arith)

-- Both periods are there and say the same.
abbrev pub SamePeriod : Option FixedBudgetPeriod → Option FixedBudgetPeriod → Type 0
SamePeriod (some a) (some b) =
    (a.kind ≡ b.kind) × (a.anchor ≡ b.anchor) × (a.duration_ms ≡ b.duration_ms)
SamePeriod _ _ = ⊥

same_period_iff : (a b : Option FixedBudgetPeriod) → (same_period a b ≡ true) ↔ SamePeriod a b
unfolding same_period
same_period_iff none b = (λ h. cc, λ h. elim h [ ])
same_period_iff (some a) none = (λ h. cc, λ h. elim h [ ])
same_period_iff (some a) (some b) = (
  λ h. ground (arith, eq_iff a.kind b.kind, eqb_ℤ_iff a.duration_ms b.duration_ms),
  λ h. ground (arith, eq_iff a.kind b.kind, eqb_ℤ_iff a.duration_ms b.duration_ms),
)

pub record IsCapped (r c : Limits) : Type 0 where
  pub ceilings_valid : validate_limits c ≡ none
  pub currency : r.currency ≡ c.currency
  pub change_period : SamePeriod r.change.period c.change.period
  pub project_period : SamePeriod r.project.period c.project.period
  pub attempt : Within r.attempt c.attempt
  pub change : Within r.change c.change
  pub project : Within r.project c.project

-- Ceilings let a request pass exactly if they are valid themselves, the currency and both periods
-- agree, and none of the seven resources of the three scopes is asked for beyond its ceiling.
pub enforce_runtime_ceilings_iff :
    (r c : Limits) → (enforce_runtime_ceilings r (some c) ≡ none) ↔ IsCapped r c
unfolding enforce_runtime_ceilings
enforce_runtime_ceilings_iff r c = (
  λ h. ground (
    arith,
    eq_iff r.currency c.currency,
    (same_period_iff r.change.period c.change.period).0,
    (same_period_iff r.project.period c.project.period).0,
    (check_scope_iff "attempt" r.attempt c.attempt).0,
    (check_scope_iff "change" r.change c.change).0,
    (check_scope_iff "project" r.project c.project).0,
  ),
  λ h. ground (
    arith,
    eq_iff r.currency c.currency,
    (same_period_iff r.change.period c.change.period).1,
    (same_period_iff r.project.period c.project.period).1,
    (check_scope_iff "attempt" r.attempt c.attempt).1,
    (check_scope_iff "change" r.change c.change).1,
    (check_scope_iff "project" r.project c.project).1,
  ),
)

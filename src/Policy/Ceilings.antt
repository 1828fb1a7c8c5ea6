-- ===== src/Policy/Ceilings.antt =====
-- agent/policy/validate.go and compile.go: resource limits, and the operator's ceilings over them.
-- The Go loops run over map literals in no fixed order, which decides only which of several errors
-- is returned; here they run in the order of the literal.
pub mod Laws
use Prim.Native.Char.{Char, code}
use Prim.Native.String
use review.Base.{
  String, Bool, true, false, not, ◌||◌, ◌&&◌, List, [], ◌∷◌, str_eq, if◌then◌else◌, ltb, leb, ◌==◌,
  Option, none, some, Error, new, errorf, wrap, ◌>>◌, fail_if,
}
use review.Base.Int.{ℤ, pos, ltb_ℤ, leb_ℤ, eqb_ℤ}
use review.Base.Time.{is_zero}
use review.Policy.Schema.{FixedBudgetPeriod, LimitScope, Limits}

abbrev is_upper : Char → Bool
is_upper c = leb 65 (code c) && leb (code c) 90

-- `currencyPattern`, ^[A-Z]{3}$
unfoldable pub is_currency : String → Bool
is_currency (String.◌∷◌ a (String.◌∷◌ b (String.◌∷◌ c String.[]))) =
    is_upper a && is_upper b && is_upper c
is_currency _ = false

unfoldable pub has_negative : LimitScope → Bool
has_negative s =
    ltb_ℤ s.model_calls (pos 0)
    || ltb_ℤ s.tool_calls (pos 0)
    || ltb_ℤ s.input_tokens (pos 0)
    || ltb_ℤ s.output_tokens (pos 0)
    || ltb_ℤ s.money_micro (pos 0)
    || ltb_ℤ s.active_ms (pos 0)
    || ltb_ℤ s.observation_bytes (pos 0)

validate_period : String → Option FixedBudgetPeriod → Option Error
validate_period name none =
    some (errorf "policy: limits.%s requires a valid fixed period" (name ∷ []))
validate_period name (some p) = do
  fail_if
      (not (str_eq p.kind "fixed")
        || is_zero p.anchor
        || ltb_ℤ p.duration_ms (pos 1)
        || ltb_ℤ (pos 31536000000) p.duration_ms)
      (errorf "policy: limits.%s requires a valid fixed period" (name ∷ []))
  fail_if (not p.anchor_utc) (errorf "policy: limits.%s period anchor must be UTC" (name ∷ []))

-- One round of the loop over the scopes.
validate_scope : String → LimitScope → Option Error
unfolding validate_period
validate_scope name scope = do
  fail_if (has_negative scope) (errorf "policy: limits.%s values must be nonnegative" (name ∷ []))
  if str_eq name "attempt" then none else validate_period name scope.period

abbrev is_given : Option FixedBudgetPeriod → Bool
is_given none = false
is_given (some p) = true

abbrev has_money : Limits → Bool
has_money l =
    ltb_ℤ (pos 0) l.attempt.money_micro
    || ltb_ℤ (pos 0) l.change.money_micro
    || ltb_ℤ (pos 0) l.project.money_micro

-- `validateLimits`
unfoldable pub validate_limits : Limits → Option Error
unfolding validate_scope
validate_limits l = do
  fail_if (is_given l.attempt.period) (new "policy: limits.attempt.period is forbidden")
  validate_scope "attempt" l.attempt
  validate_scope "change" l.change
  validate_scope "project" l.project
  fail_if (has_money l && not (is_currency l.currency))
      (new "policy: limits.currency must be an uppercase ISO-4217 code when money is enabled")

unfoldable pub same_period : Option FixedBudgetPeriod → Option FixedBudgetPeriod → Bool
same_period (some a) (some b) =
    str_eq a.kind b.kind && a.anchor == b.anchor && eqb_ℤ a.duration_ms b.duration_ms
same_period _ _ = false

check_period : String → LimitScope → LimitScope → Option Error
check_period name r c =
    fail_if (not (same_period r.period c.period))
      (errorf "policy: limits.%s period does not match operator ceilings" (name ∷ []))

check_resource : String → String → ℤ → ℤ → Option Error
check_resource name resource r c =
    fail_if (ltb_ℤ c r)
      (errorf "policy: limits.%s.%s exceeds operator ceiling" (name ∷ resource ∷ []))

-- One round of the second loop.
unfoldable pub check_scope : String → LimitScope → LimitScope → Option Error
unfolding check_resource
check_scope name r c = do
  check_resource name "model_calls" r.model_calls c.model_calls
  check_resource name "tool_calls" r.tool_calls c.tool_calls
  check_resource name "input_tokens" r.input_tokens c.input_tokens
  check_resource name "output_tokens" r.output_tokens c.output_tokens
  check_resource name "money_micro" r.money_micro c.money_micro
  check_resource name "active_ms" r.active_ms c.active_ms
  check_resource name "observation_bytes" r.observation_bytes c.observation_bytes

abbrev wrap_ceilings : Option Error → Option Error
wrap_ceilings none = none
wrap_ceilings (some e) = some (wrap "policy: invalid operator ceilings: %w" e)

-- `enforceRuntimeCeilings`
unfoldable pub enforce_runtime_ceilings : Limits → Option Limits → Option Error
unfolding check_period
enforce_runtime_ceilings requested none = none
enforce_runtime_ceilings requested (some ceilings) = do
  wrap_ceilings (validate_limits ceilings)
  fail_if (not (str_eq requested.currency ceilings.currency))
      (new "policy: requested currency does not match operator ceilings currency")
  check_period "change" requested.change ceilings.change
  check_period "project" requested.project ceilings.project
  check_scope "attempt" requested.attempt ceilings.attempt
  check_scope "change" requested.change ceilings.change
  check_scope "project" requested.project ceilings.project

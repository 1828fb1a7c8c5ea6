-- ===== src/Orchestrator/Limits.antt =====
-- agent/orchestrator: the test of a request against the limits in force, in `newDispatchIntent` of
-- budget.go and in `recoverPrepared` of recovery.go.
pub mod Laws
use review.Base.{
  ℕ, String, Bool, true, false, not, ◌||◌, ◌&&◌, if◌then◌else◌, List, [], ◌∷◌, ◌++◌, Option, none,
  some, Error, new, wrap, fail_if, Result, ok, ◌then_ok◌, bind,
}
use review.Base.Int.{ℤ, pos, ltb_ℤ, leb_ℤ}
use review.Policy.Schema.{Limits, LimitScope}
use review.Orchestrator.Intent.{LlmRequest}

-- `&budgetError{err}`
abbrev pub budget_error : Error → Error
budget_error e = wrap "orchestrator: budget: " e

abbrev pub deny : String → Error
deny message = budget_error (new message)

-- `int64(1<<63 - 1)`
abbrev pub max_int64 : ℕ
max_int64 = 9223372036854775807

-- `int64((1<<63-1)/time.Millisecond)`
abbrev pub max_duration_ms : ℕ
max_duration_ms = 9223372036854

-- The scopes of a slice of limits in the order of the two loops.
unfoldable pub scopes_of : List Limits → List LimitScope
scopes_of [] = []
scopes_of (limit ∷ limits) = limit.attempt ∷ limit.change ∷ limit.project ∷ scopes_of limits

abbrev pub lesser : ℤ → ℤ → ℤ
lesser scope_ms active = if ltb_ℤ scope_ms active then scope_ms else active

-- The loops of `newDispatchIntent`.
unfoldable pub bound_scopes : LlmRequest → ℤ → List LimitScope → Result ℤ
bound_scopes req active [] = ok active
bound_scopes req active (scope ∷ scopes) =
    fail_if
      (leb_ℤ scope.model_calls (pos 0)
        || leb_ℤ scope.input_tokens (pos 0)
        || leb_ℤ scope.output_tokens (pos 0)
        || leb_ℤ scope.active_ms (pos 0)
        || ltb_ℤ scope.money_micro (pos 0))
      (deny "scope has no model capacity")
    then_ok fail_if (leb_ℤ req.max_tokens (pos 0) || ltb_ℤ scope.output_tokens req.max_tokens)
        (deny "requested output exceeds scope ceiling")
    then_ok bound_scopes req (lesser scope.active_ms active) scopes

-- The loops of `newDispatchIntent` with the test below them.
unfoldable pub active_bound : LlmRequest → List Limits → Result ℤ
active_bound req limits = bind (bound_scopes req (pos max_int64) (scopes_of limits)) λ active.
    fail_if (ltb_ℤ (pos max_duration_ms) active) (deny "active time bound overflows duration")
    then_ok ok active

-- The loops of `recoverPrepared`.
unfoldable pub recovered_scopes : LlmRequest → ℤ → List LimitScope → Result ℤ
recovered_scopes req active [] = ok active
recovered_scopes req active (scope ∷ scopes) =
    fail_if
      (leb_ℤ scope.active_ms (pos 0)
        || ltb_ℤ (pos max_duration_ms) scope.active_ms
        || leb_ℤ scope.model_calls (pos 0)
        || leb_ℤ scope.input_tokens (pos 0)
        || ltb_ℤ scope.output_tokens req.max_tokens
        || ltb_ℤ scope.money_micro (pos 0))
      (new "recovered request exceeds current bounds")
    then_ok recovered_scopes req (lesser scope.active_ms active) scopes

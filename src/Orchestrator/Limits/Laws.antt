-- ===== src/Orchestrator/Limits/Laws.antt =====
-- About the loops over the limits in agent/orchestrator/budget.go and recovery.go.
use review.Base.{List, [], ◌∷◌, ok, ◌≡◌, arith, All, bind-eq-ok, fail_if, ◌then_ok◌}
use review.Base.Int.{ℤ, pos, ltb_ℤ, ◌≤ℤ◌}
use review.Policy.Schema.{Limits, LimitScope}
use review.Orchestrator.Intent.{LlmRequest}
use review.Orchestrator.Limits.{
  max_int64, max_duration_ms, scopes_of, lesser, bound_scopes, active_bound, recovered_scopes, deny,
}

-- A scope has room for one call with the output that the request asks for, for `active` ms.
abbrev pub HasRoom : LlmRequest → ℤ → LimitScope → Type 0
HasRoom req active scope =
    (pos 1 ≤ℤ scope.model_calls)
    × (pos 1 ≤ℤ scope.input_tokens)
    × (req.max_tokens ≤ℤ scope.output_tokens)
    × (pos 0 ≤ℤ scope.money_micro)
    × (active ≤ℤ scope.active_ms)

HasRoom-mono :
    (req : LlmRequest) (a b : ℤ) (scopes : List LimitScope)
    → a ≤ℤ b
    → All (HasRoom req b) scopes
    → All (HasRoom req a) scopes
HasRoom-mono req a b [] h rooms = tt
HasRoom-mono req a b (s ∷ ss) h (room, rooms) = (ground arith, HasRoom-mono req a b ss h rooms)

bound_scopes-HasRoom :
    (req : LlmRequest) (active : ℤ) (scopes : List LimitScope) {r : ℤ}
    → bound_scopes req active scopes ≡ ok r
    → pos 1 ≤ℤ active
    → (r ≤ℤ active) × (pos 1 ≤ℤ r) × All (HasRoom req r) scopes
unfolding bound_scopes
bound_scopes-HasRoom req active [] h a = (ground arith, ground arith, tt)
bound_scopes-HasRoom req active (s ∷ ss) {r} h a =
    let (le, one, rooms) =
      bound_scopes-HasRoom req (lesser s.active_ms active) ss {r = r} (ground arith)
        (ground arith) in
    (ground arith, one, (ground arith, rooms))

recovered_scopes-HasRoom :
    (req : LlmRequest) (active : ℤ) (scopes : List LimitScope) {r : ℤ}
    → recovered_scopes req active scopes ≡ ok r
    → pos 1 ≤ℤ active
    → (r ≤ℤ active) × (pos 1 ≤ℤ r) × All (HasRoom req r) scopes
unfolding recovered_scopes
recovered_scopes-HasRoom req active [] h a = (ground arith, ground arith, tt)
recovered_scopes-HasRoom req active (s ∷ ss) {r} h a =
    let (le, one, rooms) =
      recovered_scopes-HasRoom req (lesser s.active_ms active) ss {r = r} (ground arith)
        (ground arith) in
    (ground arith, one, (ground arith, rooms))

-- The active time that is granted to a request is positive, does not overflow a duration, and every
-- scope of the limits has room for the request within that time.
pub active_bound-HasRoom :
    (req : LlmRequest) (limits : List Limits) {active : ℤ}
    → active_bound req limits ≡ ok active
    → (pos 1 ≤ℤ active)
      × (active ≤ℤ pos max_duration_ms)
      × All (HasRoom req active) (scopes_of limits)
unfolding active_bound
active_bound-HasRoom req limits {active} h =
    let (r, bounded, rest) =
      bind-eq-ok (bound_scopes req (pos max_int64) (scopes_of limits))
        (λ a.
          fail_if (ltb_ℤ (pos max_duration_ms) a) (deny "active time bound overflows duration")
          then_ok ok a)
        {b = active} h in
    let (_, one, rooms) =
      bound_scopes-HasRoom req (pos max_int64) (scopes_of limits) {r = r} bounded (omega arith) in
    let same : r ≡ active = ground arith in (rw (← same) one, ground arith, rw (← same) rooms)

-- ===== src/Orchestrator/Dispatch.antt =====
-- agent/orchestrator/budget.go: `invokeReserved` and `dispatchInvocation`.
pub mod Laws
use Prim.Native.String
use review.Base.{
  ℕ, String, Bool, true, false, not, ◌||◌, ◌&&◌, if◌then◌else◌, List, [], ◌∷◌, ◌++◌, Option, none,
  some, Error, new, wrap, fail_if, Result, ok, err, bind, ◌then_ok◌, str_eq, ◌==◌, leb, ltb, ◌+◌,
  is_nil,
}
use review.Base.Int.{ℤ, pos, ltb_ℤ}
use review.Base.Time.{Time, is_zero, after}
use review.Review.Attempt.{AttemptIdentity}
use review.Review.Execution.{ExecutionContext}
use review.Review.Intake.{SnapshotAttestation}
use review.Policy.Schema.{Limits}
use review.Orchestrator.Intent.{
  JobClaim, DispatchIntent, DispatchPermit, PreparedAction, ActionClaim, DispatchOutcome,
  LlmRequest,
}
use review.Orchestrator.Limits.{budget_error, deny, max_int64, active_bound}
use review.Orchestrator.Action.{Action, continue, ◌>>=◌, ◌>>◌, return, fail}
use review.Orchestrator.Env.{
  PolicyProjection, Context, ModelSpec, Authority, Env, policy_enforced, is_some, digest_with,
  Event, called, reserved, sent, recorded, model_result, ModelCallRef,
}
use review.Orchestrator.Reserve.{new_dispatch_intent, reserve_dispatch}

-- An effect of a dispatch: the world after it, its events and what it returns.
abbrev pub Run : Type 0 → Type 0
Run W = W × List Event × Result String

-- A provider's call, which may give a part of its text with an error.
abbrev pub Call : Type 0 → Type 0
Call W = W → W × String × Option Error

module _ {W : Type 0} (env : Env W) where
  abbrev outcome_of : String → Option Error → ℤ → DispatchOutcome
  outcome_of result error elapsed = record {
    response = result;
    response_received = is_nil error;
    response_digest = digest_with env.sha256 result;
    elapsed_ms = elapsed;
    usage_known = false;
  }

  abbrev or_error : Option Error → Result String → Result String
  or_error none r = r
  or_error (some e) r = err e

  -- `if recordErr != nil`, `if callCtx.Err() != nil` and the last `return`.
  abbrev settle : Option Error → Option Error → String → Option Error → Result String
  settle (some e) late result error = err (budget_error (wrap "outcome not durably recorded: %w" e))
  settle none (some e) result error = err (budget_error e)
  settle none none result error = or_error error (ok result)

  -- `invokeReserved` below the call, with what the call did.
  unfoldable pub finish : DispatchPermit → W → List Event → W × String × Option Error → Run W
  finish permit start events (w, result, error) =
      let outcome = outcome_of result error (env.elapsed_ms start w) in
      let (v, refused) = env.record_outcome permit outcome w in
      (
        v,
        events ++ recorded permit outcome (is_nil refused) ∷ [],
        settle refused (env.call_err v) result error,
      )

  unfoldable pub invoke_within : DispatchPermit → ℤ → Call W → W → Run W
  unfolding finish
  invoke_within permit ms call start = elim (env.call_err start) [
    | some e ↦ finish permit start [] (start, "", some e)
    | none ↦ finish permit start (sent permit ms ∷ []) (call start)
  ]

  -- `invokeReserved`
  unfoldable pub invoke_reserved : DispatchPermit → ℤ → Call W → W → Run W
  invoke_reserved permit active call w =
      if ltb_ℤ permit.active_ms (pos 0) || ltb_ℤ active permit.active_ms
      then (w, [], err (deny "invalid reserved active-time bound"))
      else (let ms = if ltb_ℤ (pos 0) permit.active_ms then permit.active_ms else active in
          invoke_within permit ms call (env.begin_call ms permit.not_after w))

  -- `RecordModelResult` after a call that succeeded.
  abbrev note_result : DispatchPermit → String → Run W → Run W
  note_result permit step (w, events, ok result) = (
    w,
    events
        ++ model_result (record {
          action_id = permit.id;
          request_digest = permit.request_digest;
          response_digest = digest_with env.sha256 result;
          step = step;
        })
          ∷ [],
    ok result,
  )
  note_result permit step (w, events, err e) = (w, events, err e)

  abbrev prepend : Event → Run W → Run W
  prepend event (w, events, r) = (w, event ∷ events, r)

  -- `dispatchInvocation` from the receipt of the permit on.
  unfoldable pub use_permit : DispatchIntent → DispatchPermit → ℤ → String → Call W → W → Run W
  use_permit intent permit active step call w =
      if str_eq permit.id "" || not (str_eq permit.request_digest intent.request_digest)
      then (w, [], err (deny "invalid reservation receipt"))
      else if permit.already_started
      then (w, [], err (deny "action already started; reconcile without resending"))
      else note_result permit step (invoke_reserved permit active call w)

  -- `reserveDispatch`, where an authority is configured.
  abbrev reserve : DispatchIntent → Action W DispatchPermit
  reserve intent w = elim env.authority [
    | some authority ↦ reserve_dispatch env authority intent w
    | none ↦ (w, err (new "durable reservation authority required"))
  ]

  abbrev reserve_and_use : DispatchIntent → ℤ → String → Call W → W × Result DispatchPermit → Run W
  reserve_and_use intent active step call (w, err e) =
      (w, [], err (budget_error (wrap "reservation denied: %w" e)))
  reserve_and_use intent active step call (w, ok permit) =
      prepend (reserved intent permit) (use_permit intent permit active step call w)

  abbrev with_intent : String → Call W → W × Result (DispatchIntent × ℤ) → Run W
  with_intent step call (w, err e) = (w, [], err e)
  with_intent step call (w, ok (intent, active)) =
      reserve_and_use intent active step call (reserve intent w)

  -- The call without a budget.
  abbrev unmetered : ModelSpec → W × String × Option Error → Run W
  unmetered spec (w, result, error) = (w, called spec ∷ [], or_error error (ok result))

  -- `dispatchInvocation`
  unfoldable pub dispatch_invocation :
      Context → ModelSpec → String → String → LlmRequest → String → Call W → W → Run W
  dispatch_invocation rc spec role step req invocation call w = elim (env.ctx_err w) [
    | some e ↦ (w, [], err e)
    | none ↦
        if not (policy_enforced rc.policy) && not (is_some env.operator_ceilings)
        then unmetered spec (call w)
        else with_intent step call (new_dispatch_intent env rc spec role step req invocation w)
  ]

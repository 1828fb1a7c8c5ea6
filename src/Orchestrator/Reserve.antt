-- ===== src/Orchestrator/Reserve.antt =====
-- agent/orchestrator/budget.go and prepared.go: `newDispatchIntent` and `reserveDispatch`.
pub mod Laws
pub mod Staged
use Prim.Native.String
use review.Base.{
  ℕ, String, Bool, true, false, not, ◌||◌, ◌&&◌, if◌then◌else◌, List, [], ◌∷◌, ◌++◌, Option, none,
  some, Error, new, wrap, fail_if, Result, ok, err, bind, ◌then_ok◌, str_eq, ◌==◌, leb, ltb, ◌+◌,
  is_nil,
}
use review.Base.Int.{ℤ, pos, ltb_ℤ}
use review.Base.Time.{Time, is_zero, after}
use review.Review.Attempt.{AttemptIdentity}
use review.Review.Execution.{ExecutionContext}
use review.Review.Intake.{SnapshotAttestation}
use review.Policy.Schema.{Limits}
use review.Orchestrator.Intent.{
  JobClaim, DispatchIntent, DispatchPermit, PreparedAction, ActionClaim, DispatchOutcome,
  LlmRequest,
}
use review.Orchestrator.Limits.{budget_error, deny, max_int64, active_bound}
use review.Orchestrator.Action.{Action, continue, ◌>>=◌, ◌>>◌, return, fail}
use review.Orchestrator.Env.{
  PolicyProjection, Context, ModelSpec, Authority, Env, policy_enforced, is_some, digest_with,
}

-- The limits that an enforced policy adds; `none` is the refusal.
unfoldable pub policy_limits :
    (Limits → Limits → Bool) → Limits → PolicyProjection → Option (List Limits)
policy_limits same ceilings policy =
    if not (policy_enforced policy) then some [] else elim policy.limits [
      | none ↦ none
      | some limits ↦ elim policy.operator_ceilings [
        | none ↦ none
        | some bound ↦
            if str_eq policy.digest "" || not (same bound ceilings)
            then none
            else some (limits ∷ [])
      ]
    ]

-- The receipts of `reserveDispatch`.
abbrev bad_prepared : DispatchIntent → PreparedAction → Bool
bad_prepared i p = not (str_eq p.id i.action_id) || not (str_eq p.request_digest i.request_digest)

abbrev started_permit : PreparedAction → DispatchPermit
started_permit p = record {
  fence = 0;
  worker_id = "";
  id = p.id;
  request_digest = p.request_digest;
  already_started = true;
  active_ms = pos 0;
  not_after = 0;
}

bad_permit : DispatchIntent → PreparedAction → ActionClaim → String → DispatchPermit → Bool
bad_permit i p c worker permit =
    not (str_eq permit.id p.id)
    || not (str_eq permit.request_digest p.request_digest)
    || not (permit.fence == c.fence)
    || not (str_eq permit.worker_id worker)
    || is_zero permit.not_after
    || (not (is_zero i.execution.deadline_at) && after permit.not_after i.execution.deadline_at)

module _ {W : Type 0} (env : Env W) where
  -- The tests of `newDispatchIntent` before the payload is encoded.
  unfoldable pub admit_dispatch : Context → LlmRequest → Result (Limits × ℤ)
  unfolding policy_limits
  admit_dispatch rc req = elim env.operator_ceilings [
    | none ↦ err (deny "durable reservation authority and operator ceilings are required")
    | some ceilings ↦
        fail_if (not (is_some env.authority))
          (deny "durable reservation authority and operator ceilings are required")
        then_ok elim (policy_limits env.same_limits ceilings rc.policy) [
          | none ↦
              err (deny "policy limits or current operator binding missing; readmission required")
          | some added ↦ bind (active_bound req (ceilings ∷ added)) λ active. ok (ceilings, active)
        ]
  ]

  unfoldable pub intent_of :
      Limits → Context → ModelSpec → String → String → String → String → String → DispatchIntent
  intent_of ceilings rc spec role step invocation payload action_id = record {
    model_checkpoint = env.model_checkpoint;
    invocation = invocation;
    job = env.job_claim;
    action_id = action_id;
    provider = spec.provider;
    model = spec.model;
    role = role;
    step = step;
    request_digest = digest_with env.sha256 payload;
    policy_digest = rc.policy.digest;
    payload = payload;
    attempt = rc.attempt;
    execution = rc.execution;
    attestation = rc.attestation;
    policy_limits = if policy_enforced rc.policy then rc.policy.limits else none;
    operator_ceilings = ceilings;
  }

  -- The text of the cause is left out of the error.
  abbrev encode_payload : LlmRequest → Result String
  encode_payload req = elim (env.encode_request req) [
    | ok payload ↦ ok payload
    | err e ↦ err (deny "cannot bind request: %v")
  ]

  -- A failure of the random numbers loses its cause.
  abbrev lose_cause : {A : Type 0} → String → Result A → Result A
  lose_cause message (ok a) = ok a
  lose_cause message (err e) = err (deny message)

  abbrev action_id : Action W String
  action_id w = let (v, id) = env.random_id w in (v, lose_cause "cannot create action identity" id)

  -- `newDispatchIntent`
  unfoldable pub new_dispatch_intent :
      Context → ModelSpec → String → String → LlmRequest → String → Action W (DispatchIntent × ℤ)
  new_dispatch_intent rc spec role step req invocation = do
    λ w. (w, elim (env.ctx_err w) [ none ↦ ok tt | some e ↦ err e ])
    (ceilings, active) ← return (admit_dispatch rc req)
    payload ← return (encode_payload req)
    id ← action_id
    return (ok (intent_of ceilings rc spec role step invocation payload id, active))

  -- `!bytes.Equal(requested, stored)` with the errors of the encoder.
  abbrev check_stored : DispatchIntent → DispatchIntent → Result (Unit {0})
  check_stored i stored = bind (env.encode_intent i) λ requested.
      bind (env.encode_intent stored) λ kept.
        fail_if (not (str_eq requested kept)) (new "prepared immutable input changed") then_ok ok tt

  abbrev check_intent : DispatchIntent → Option DispatchIntent → Result (Unit {0})
  check_intent i none = err (new "invalid prepared ownership receipt")
  check_intent i (some stored) = check_stored i stored

  bad_claim : DispatchIntent → PreparedAction → String → ActionClaim → Bool
  bad_claim i p worker c =
      not (str_eq c.id p.id)
      || not (str_eq c.request_digest p.request_digest)
      || not (str_eq c.worker_id worker)
      || leb max_int64 p.fence
      || not (c.fence == p.fence + 1)
      || is_zero c.lease_until
      || not (is_some c.intent)
      || not (env.same_job c.job i.job)

  -- `reserveDispatch` from `BeginPrepared` on.
  begin_checked :
      (ActionClaim → Action W DispatchPermit)
      → DispatchIntent
      → PreparedAction
      → String
      → ActionClaim
      → Action W DispatchPermit
  begin_checked begin i p worker c = do
    permit ← begin c
    fail (bad_permit i p c worker permit) (new "invalid fenced sending receipt")
    return (ok permit)

  -- `reserveDispatch` from the test of the claim on.
  own_checked :
      (ActionClaim → Action W DispatchPermit)
      → DispatchIntent
      → PreparedAction
      → String
      → ActionClaim
      → Action W DispatchPermit
  unfolding bad_claim bad_permit begin_checked
  own_checked begin i p worker c = do
    fail (bad_claim i p worker c) (new "invalid prepared ownership receipt")
    return (check_intent i c.intent)
    begin_checked begin i p worker c

  -- `reserveDispatch` from `ClaimPrepared` on.
  unfoldable pub claim_and_begin :
      (PreparedAction → String → Action W ActionClaim)
      → (ActionClaim → Action W DispatchPermit)
      → DispatchIntent
      → PreparedAction
      → Action W DispatchPermit
  unfolding own_checked
  claim_and_begin claim begin i p = do
    worker ← env.new_opaque_id "dispatch-"
    c ← claim p worker
    own_checked begin i p worker c

  -- `reserveDispatch`
  unfoldable pub reserve_dispatch : Authority W → DispatchIntent → Action W DispatchPermit
  reserve_dispatch (Authority.simple reserve_and_begin) i = reserve_and_begin i
  reserve_dispatch (Authority.staged prepare claim begin) i = do
    p ← prepare i
    fail (bad_prepared i p) (new "invalid prepared receipt")
    if p.already_started then return (ok (started_permit p)) else claim_and_begin claim begin i p

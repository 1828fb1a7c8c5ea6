-- ===== src/Orchestrator/Env.antt =====
-- agent/orchestrator: what a dispatch reads and what lies outside of it.
-- Outside, and a field of `Env`, are the budget authority, the clock of a context, the random
-- numbers, SHA-256 (in hexadecimal), encoding/json and `reflect.DeepEqual`. A call is a step of the
-- world W. A derived context lives in the world that `begin_call` opens. The review context is given:
-- with a nil one the callers of a dispatch panic when they record its provider.
use Prim.Native.String
use review.Base.{String, Bool, true, false, ◌||◌, List, Option, none, some, Error, Result, str_eq}
use review.Base.Int.{ℤ}
use review.Base.Time.{Time}
use review.Review.Attempt.{AttemptIdentity}
use review.Review.Execution.{ExecutionContext}
use review.Review.Intake.{SnapshotAttestation}
use review.Policy.Schema.{Limits}
use review.Orchestrator.Intent.{
  JobClaim, DispatchIntent, DispatchPermit, PreparedAction, ActionClaim, DispatchOutcome,
  LlmRequest,
}
use review.Orchestrator.Action.{Action}

-- What is read of `PolicyProjection`.
pub record PolicyProjection : Type 0 where
  pub mode : String
  pub enforced : Bool
  pub digest : String
  pub limits : Option Limits
  pub operator_ceilings : Option Limits
  pub allowed_capabilities : List String

-- What is read of the review context and its source.
pub record Context : Type 0 where
  pub policy : PolicyProjection
  pub attempt : AttemptIdentity
  pub execution : ExecutionContext
  pub attestation : Option SnapshotAttestation

pub record ModelSpec : Type 0 where
  pub model : String
  pub provider : String

-- `BudgetAuthority` and `PreparedBudgetAuthority`.
pub data Authority (W : Type 0) : Type 0 where
  simple : (DispatchIntent → Action W DispatchPermit) → Authority W
  staged :
      (DispatchIntent → Action W PreparedAction)
      → (PreparedAction → String → Action W ActionClaim)
      → (ActionClaim → Action W DispatchPermit)
      → Authority W

pub record Env (W : Type 0) : Type 0 where
  pub ctx_err : W → Option Error
  pub random_id : Action W String
  pub new_opaque_id : String → Action W String
  pub job_claim : Option JobClaim
  pub model_checkpoint : String
  pub operator_ceilings : Option Limits
  pub authority : Option (Authority W)
  pub record_outcome : DispatchPermit → DispatchOutcome → W → W × Option Error
  pub begin_call : ℤ → Time → W → W
  pub call_err : W → Option Error
  pub elapsed_ms : W → W → ℤ
  pub sha256 : String → String
  pub encode_request : LlmRequest → Result String
  pub encode_intent : DispatchIntent → Result String
  pub same_limits : Limits → Limits → Bool
  pub same_job : Option JobClaim → Option JobClaim → Bool

pub record ModelCallRef : Type 0 where
  pub action_id : String
  pub request_digest : String
  pub response_digest : String
  pub step : String

-- What a dispatch did, in order. `called` is a call without a budget; a `recorded` event says whether
-- the authority accepted the outcome.
pub data Event : Type 0 where
  called : ModelSpec → Event
  reserved : DispatchIntent → DispatchPermit → Event
  sent : DispatchPermit → ℤ → Event
  recorded : DispatchPermit → DispatchOutcome → Bool → Event
  model_result : ModelCallRef → Event

abbrev pub policy_enforced : PolicyProjection → Bool
policy_enforced p = p.enforced || str_eq p.mode "enforce"

abbrev pub is_some {ℓ} : {A : Type ℓ} → Option A → Bool
is_some none = false
is_some (some a) = true

abbrev pub digest_with : (String → String) → String → String
digest_with sha256 s = String.◌++◌ "sha256:" (sha256 s)

-- ===== src/Orchestrator/Intent.antt =====
-- agent/orchestrator/budget.go and agent/review/job.go: what an authority over the budget is asked
-- to reserve and the receipts that it gives. A `[]byte` is a text.
use review.Base.{ℕ, String, Bool, Option, List}
use review.Base.Int.{ℤ}
use review.Base.Time.{Time}
use review.Review.Attempt.{AttemptIdentity}
use review.Review.Execution.{ExecutionContext}
use review.Review.Intake.{SnapshotAttestation}
use review.Policy.Schema.{Limits}

pub record JobClaim : Type 0 where
  pub run_id : String
  pub token : String

pub record DispatchIntent : Type 0 where
  pub model_checkpoint : String
  pub invocation : String
  pub job : Option JobClaim
  pub action_id : String
  pub provider : String
  pub model : String
  pub role : String
  pub step : String
  pub request_digest : String
  pub policy_digest : String
  pub payload : String
  pub attempt : AttemptIdentity
  pub execution : ExecutionContext
  pub attestation : Option SnapshotAttestation
  pub policy_limits : Option Limits
  pub operator_ceilings : Limits

pub record DispatchPermit : Type 0 where
  pub fence : ℕ  -- uint64
  pub worker_id : String
  pub id : String
  pub request_digest : String
  pub already_started : Bool
  pub active_ms : ℤ
  pub not_after : Time

pub record PreparedAction : Type 0 where
  pub id : String
  pub request_digest : String
  pub fence : ℕ
  pub already_started : Bool

pub record ActionClaim : Type 0 where
  pub intent : Option DispatchIntent
  pub id : String
  pub request_digest : String
  pub worker_id : String
  pub fence : ℕ
  pub lease_until : Time
  pub job : Option JobClaim

pub record DispatchOutcome : Type 0 where
  pub response : String
  pub response_received : Bool
  pub response_digest : String
  pub elapsed_ms : ℤ
  pub usage_known : Bool

-- `LLMRequest` of agent/llm; a tool is its name, which is all that is read of it here.
pub record LlmRequest : Type 0 where
  pub model : String
  pub system_prompt : String
  pub user_message : String
  pub max_tokens : ℤ
  pub tools : List String

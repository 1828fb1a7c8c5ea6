-- ===== src/Review/Records.antt =====
-- agent/review/domain.go: what is recorded about an attempt while it is investigated.
pub mod Laws
use review.Base.{ℕ, String, Bool, ◌||◌, Option, Error, new, ◌>>◌, fail_if, ◌==◌, List, is_empty}
use review.Base.Text.{is_blank}
use review.Base.Time.{Time, is_zero}

pub record Observation : Type 0 where
  pub id : String
  pub action_id : String
  pub source : String
  pub repository_id : String
  pub revision : String
  pub observed_at : Time
  pub producer_version : String
  pub content_digest : String
  pub authority : String
  pub completeness : String
  pub source_refs : List String

unfoldable pub validate_observation : Observation → Option Error
validate_observation o = do
  fail_if (is_blank o.id || is_blank o.action_id || is_blank o.source)
      (new "observation ID, action and source are required")
  fail_if (is_blank o.repository_id || is_blank o.revision)
      (new "observation repository and revision are required")
  fail_if (is_zero o.observed_at || is_blank o.producer_version || is_blank o.content_digest)
      (new "observation time, producer version and digest are required")
  fail_if (is_blank o.authority || is_blank o.completeness)
      (new "observation authority and completeness are required")

-- `Metadata` is not read by any code modelled here, and is left out.
pub record AttemptEvent : Type 0 where
  pub id : String
  pub attempt_id : String
  pub kind : String
  pub actor_principal : String
  pub subject_revision : String
  pub payload_digest : String
  pub expected_version : ℕ  -- uint64
  pub occurred_at : Time

unfoldable pub validate_event : AttemptEvent → Option Error
validate_event e = do
  fail_if (is_blank e.id || is_blank e.attempt_id || is_blank e.kind)
      (new "event ID, attempt and type are required")
  fail_if (is_blank e.actor_principal || is_blank e.subject_revision || is_blank e.payload_digest)
      (new "event actor, revision and payload digest are required")
  fail_if (e.expected_version == 0 || is_zero e.occurred_at)
      (new "event expected version and time are required")

pub record HumanDecision : Type 0 where
  pub id : String
  pub actor_principal : String
  pub actor_role : String
  pub action : String
  pub subject_id : String
  pub subject_version : ℕ  -- uint64
  pub subject_revision : String
  pub reason : String
  pub decided_at : Time

unfoldable pub validate_human_decision : HumanDecision → Option Error
validate_human_decision d = do
  fail_if (is_blank d.id || is_blank d.actor_principal || is_blank d.actor_role)
      (new "decision ID, actor and role are required")
  fail_if
      (is_blank d.action
        || is_blank d.subject_id
        || d.subject_version == 0
        || is_blank d.subject_revision)
      (new "decision action and versioned subject are required")
  fail_if (is_blank d.reason || is_zero d.decided_at) (new "decision reason and time are required")

pub record ExecutionDecision : Type 0 where
  pub sequence : ℕ  -- uint64
  pub trigger_event_id : String
  pub input_artifact_refs : List String
  pub action : String
  pub reason : String
  pub check_refs : List String
  pub risk_delta : String
  pub coverage_delta : String
  pub reservation_id : String
  pub decided_at : Time

unfoldable pub validate_execution_decision : ExecutionDecision → Option Error
validate_execution_decision d = do
  fail_if (d.sequence == 0 || is_blank d.trigger_event_id)
      (new "execution decision sequence and trigger event are required")
  fail_if (is_blank d.action || is_blank d.reason || is_zero d.decided_at)
      (new "execution decision action, reason and time are required")
  fail_if (is_empty d.input_artifact_refs)
      (new "execution decision requires immutable input references")

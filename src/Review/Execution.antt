-- ===== src/Review/Execution.antt =====
-- agent/review/domain.go: where an attempt runs, and what outlives it.
pub mod Laws
use review.Base.{
  String, Bool, true, false, not, ◌||◌, ◌&&◌, Option, none, Error, new, errorf, ◌>>◌, fail_if, [],
  ◌∷◌,
}
use review.Base.Text.{is_blank}
use review.Base.Time.{Time, is_zero}

-- `ExecutionMode`; `other` holds a spelling that is none of the constants.
pub data ExecutionMode : Type 0 where
  service ephemeral : ExecutionMode
  other : String → ExecutionMode

abbrev pub mode_text : ExecutionMode → String
mode_text service = "service"
mode_text ephemeral = "ephemeral"
mode_text (other s) = s

abbrev pub is_service : ExecutionMode → Bool
is_service service = true
is_service _ = false

abbrev pub is_ephemeral : ExecutionMode → Bool
is_ephemeral ephemeral = true
is_ephemeral _ = false

pub data PersistenceBoundary : Type 0 where
  durable_service job_local : PersistenceBoundary
  other : String → PersistenceBoundary

abbrev pub is_durable_service : PersistenceBoundary → Bool
is_durable_service durable_service = true
is_durable_service _ = false

abbrev pub is_job_local : PersistenceBoundary → Bool
is_job_local job_local = true
is_job_local _ = false

pub record ExecutionContext : Type 0 where
  pub mode : ExecutionMode
  pub producer_id : String
  pub pipeline_id : String
  pub job_id : String
  pub comparison_tree : String
  pub persistence : PersistenceBoundary
  pub trusted_boundary_id : String
  pub deadline_at : Time

unfoldable pub validate_execution : ExecutionContext → Option Error
validate_execution c = do
  fail_if (not (is_service c.mode) && not (is_ephemeral c.mode))
      (errorf "unsupported execution mode %q" (mode_text c.mode ∷ []))
  fail_if (is_blank c.producer_id || is_blank c.comparison_tree || is_blank c.trusted_boundary_id)
      (new "execution producer, comparison tree and trusted boundary are required")
  fail_if (is_zero c.deadline_at) (new "execution deadline is required")
  fail_if (is_service c.mode && not (is_durable_service c.persistence))
      (new "service execution requires durable service persistence")
  fail_if (is_ephemeral c.mode && not (is_job_local c.persistence))
      (new "ephemeral execution requires job-local persistence")

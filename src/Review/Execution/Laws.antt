-- ===== src/Review/Execution/Laws.antt =====
-- What `ExecutionContext.Validate` accepts.
use review.Base.{◌≡◌, ◌≢◌, ◌⊎◌, ◌↔◌, none, false, arith}
use review.Base.Text.{is_blank}
use review.Review.Execution.{
  ExecutionContext, ExecutionMode, PersistenceBoundary, validate_execution,
}

-- The two ways to run: a service that keeps its state, or a job that keeps it to itself.
abbrev pub IsPaired : ExecutionContext → Type 0
IsPaired c =
    ((c.mode ≡ ExecutionMode.service) × (c.persistence ≡ PersistenceBoundary.durable_service))
    ⊎ ((c.mode ≡ ExecutionMode.ephemeral) × (c.persistence ≡ PersistenceBoundary.job_local))

-- An execution is accepted exactly if producer, comparison tree, boundary and deadline are given,
-- and it is a service with durable state or an ephemeral job with local state.
pub validate_execution_iff :
    (c : ExecutionContext)
    → (validate_execution c ≡ none) ↔ (
        (is_blank c.producer_id ≡ false)
        × (is_blank c.comparison_tree ≡ false)
        × (is_blank c.trusted_boundary_id ≡ false)
        × (c.deadline_at ≢ 0)
        × IsPaired c)
unfolding validate_execution
validate_execution_iff c = (λ h. ground arith, λ h. ground arith)

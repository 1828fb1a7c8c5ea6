-- ===== src/Orchestrator.antt =====
-- agent/orchestrator: model calls that are paid for from a reserved budget.
pub mod Intent
pub mod Fixtures
pub mod Limits
pub mod Action
pub mod Env
pub mod Reserve
pub mod Dispatch
pub mod Complete

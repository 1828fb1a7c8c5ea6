-- ===== src/Pipeline.antt =====
-- agent/pipeline: the parts that feed the quality gate.
pub mod CiGate
pub mod Chunks
pub mod ReviewCoverage
pub mod RunStore
pub mod Approval

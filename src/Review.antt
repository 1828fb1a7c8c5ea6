-- ===== src/Review.antt =====
-- The domain records of agent/review: attempts, snapshots, checks, assessments and gate results.
pub mod Change
pub mod Execution
pub mod Attempt
pub mod Check
pub mod Records
pub mod Gate
pub mod CiProvenance
pub mod CiEvidence
pub mod Intake
pub mod Operator
pub mod InlinePositions
pub mod Tests

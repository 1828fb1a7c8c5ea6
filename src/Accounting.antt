-- ===== src/Accounting.antt =====
-- agent/accounting: what a model call may cost.
pub mod Bounds

-- ===== src/Policy.antt =====
-- agent/policy: the repository's review policy, compiled and evaluated.
pub mod Schema
pub mod Baseline
pub mod Coverage
pub mod Findings
pub mod Gate
pub mod Publication
pub mod Ceilings
pub mod Glob
pub mod Scopes
pub mod PathSyntax
pub mod Ids
pub mod DocumentRefs
pub mod Inheritance
pub mod Triggers
pub mod TriggerMatch
pub mod Delegations
pub mod Packs
pub mod Validate
pub mod Rules
pub mod Replacement
pub mod Compile
mod Tests

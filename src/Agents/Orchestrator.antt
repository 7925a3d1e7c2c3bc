-- ===== src/Agents/Orchestrator.antt =====
-- crates/visp-agent/src/orchestrator.rs: of it, the tools that a sub-agent gets, how an agent ends,
-- and how it is cancelled.
pub mod Tools
pub mod Ending
pub mod Cancel

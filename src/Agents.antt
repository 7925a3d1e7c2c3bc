-- ===== src/Agents.antt =====
-- The agents that run: crates/visp-agent.
pub mod Active
pub mod Orchestrator

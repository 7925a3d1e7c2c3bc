-- ===== src/Core/AgentLoop.antt =====
-- crates/visp-core/src/agent_loop.rs and the helpers of it in agent.rs: one run of an agent, from the
-- user's message to the end of the loop. The children model its parts: what it sends (Events), the
-- state it works on and what acts on it from outside (World), the repair of the history (Cleanup), the
-- call of the provider (Retry), its answer (Stream, Marker, Decide), the tools (DoomLoop, Tools) and
-- the loop itself (Prompt, Run).
pub mod Events
pub mod Cleanup
pub mod Marker
pub mod World
pub mod Retry
pub mod Stream
pub mod Decide
pub mod DoomLoop
pub mod Prompt
pub mod Task
pub mod Tools
pub mod Run

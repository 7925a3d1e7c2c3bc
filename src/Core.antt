-- ===== src/Core.antt =====
-- crates/visp-core: the messages of a conversation, the sessions, the tools and their permissions.
pub mod AgentLoop
pub mod Message
pub mod Permission
pub mod Session
pub mod ToolRegistry
pub mod TraceContext

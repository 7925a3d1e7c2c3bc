-- ===== src/Tests.antt =====
-- The theorems applied at concrete inputs, and the inputs.
pub mod Trimming
pub mod Permissions
pub mod Loops
pub mod Sessions
pub mod Dispatching
pub mod Tools
pub mod Agents
pub mod Endings
pub mod Traces

-- ===== src/Hooks.antt =====
-- The hook subsystem: crates/visp-hooks.
pub mod Rules
pub mod Queue
pub mod Worker
pub mod Executor

-- ===== src/Context.antt =====
-- crates/visp-context/src/lib.rs: the trimmer that fits a conversation into the context window.
pub mod Estimate
pub mod Cost
pub mod Turns
pub mod KeepHeadTail
pub mod Trim

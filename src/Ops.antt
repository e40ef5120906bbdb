-- ===== src/Ops.antt =====
-- The ops through which JavaScript reaches the user workers: crates/sb_workers/lib.rs.
pub mod Request
pub mod Stream
pub mod Channel
pub mod Worker
mod Examples

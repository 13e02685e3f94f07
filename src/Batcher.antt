-- ===== src/Batcher.antt =====
-- server/src/inbox/batcher.ts: bursts of messages, the prompt of a batch, and its processing.
pub mod Prompt
pub mod Timers
pub mod Media
pub mod Process
mod Examples

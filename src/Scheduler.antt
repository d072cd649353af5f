-- ===== src/Scheduler.antt =====
-- src/common/scheduler: timed tasks, and the store that keeps their expiry over a restart.
pub mod Tasks
pub mod TaskStore
pub mod FileTaskStore
pub mod Policy
pub mod Running

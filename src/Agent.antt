-- ===== src/Agent.antt =====
-- agent/ and api/executors.go: what a host does with the tasks that are scheduled on it.
pub mod Executors
pub mod State
pub mod Running
pub mod Sync
pub mod Publish
pub mod Setup
pub mod Loop

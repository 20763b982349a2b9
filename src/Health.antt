-- ===== src/Health.antt =====
-- health/: the monitors of the health checks and the agent that keeps one for each check.
pub mod Monitor
pub mod Monitors
pub mod Checks
pub mod Loop

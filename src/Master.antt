-- ===== src/Master.antt =====
-- master/: the queue of requests, the locks, and the master that schedules what is requested.
pub mod Queue
pub mod Lockers
pub mod Dispatch
pub mod Loop
pub mod Workers

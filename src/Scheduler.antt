-- ===== src/Scheduler.antt =====
-- scheduler/: the default scheduler. `Rankers` orders the hosts, `Hosts` picks one and books its
-- resources, `Ports` picks a dynamic port, `Schedule` is the whole pass over a deployment.
pub mod Rankers
pub mod Hosts
pub mod Ports
pub mod Schedule

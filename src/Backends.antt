-- ===== src/Backends.antt =====
-- backends/: what the two backends share, the in-memory backend and the one over Consul.
pub mod Events
pub mod Query
pub mod Mock
pub mod Consul

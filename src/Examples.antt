-- ===== src/Examples.antt =====
-- The theorems at small concrete inputs.
pub mod Fixtures
pub mod Choosing
pub mod Scheduling
pub mod Backing
pub mod Serving
pub mod Running
pub mod Watching
pub mod Commanding
pub mod Filling
pub mod Looping
pub mod Scaling
pub mod Sharing

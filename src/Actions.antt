-- ===== src/Actions.antt =====
-- actions/: what the command line does to the desired state.
pub mod Scale
pub mod Table
pub mod Apply
pub mod Listing

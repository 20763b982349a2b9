-- ===== src/Api.antt =====
-- api/: the data model, its methods and the interface of the backends.
pub mod Types
pub mod Results
pub mod Definitions
pub mod Backend
pub mod Loops
pub mod StoreLaws
pub mod Validate

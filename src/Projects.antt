-- ===== src/Projects.antt =====
-- The projects module: app/projects.
pub mod Model
pub mod Repository
pub mod Service
pub mod Ownership
pub mod Update
pub mod Cascade
pub mod Listing

-- ===== src/Tasks.antt =====
-- The tasks module: app/tasks.
pub mod Model
pub mod Repository
pub mod Service
pub mod Join
pub mod Ownership
pub mod Changes
pub mod Filters
pub mod Listing

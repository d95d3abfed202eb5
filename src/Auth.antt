-- ===== src/Auth.antt =====
-- The auth module: app/auth.
pub mod Model
pub mod Protocol
pub mod Repository
pub mod Keys
pub mod World
pub mod Service
pub mod Deps
pub mod Attempts
pub mod Login
pub mod Lockout
pub mod Index
pub mod Calls
pub mod Good
pub mod Reach
pub mod Sessions
pub mod Revoked
pub mod Concurrent
pub mod Reset
pub mod Registration
pub mod Access
pub mod Fake

-- ===== src/Tests.antt =====
-- Examples: the theorems at concrete inputs.
mod MemoryRedis
mod Codec
mod Sql
mod Store
mod Http
mod Api
mod Contract
mod Operations
mod Wiring
mod Fakes
mod Users
mod Auth

-- ===== src/Consistency.antt =====
-- The invariant of the tables of projects and tasks: ids stand once, every task has its project,
-- and no NOT NULL column is empty.
pub mod Rows
pub mod Requests
pub mod Transactions

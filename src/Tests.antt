-- ===== src/Tests.antt =====
-- The theorems applied at concrete runs of the lock manager and of the buffer pool.
pub mod Lock
pub mod Storage
pub mod Record
pub mod Index
pub mod System
pub mod Tables
pub mod Query
pub mod Plans
pub mod Modify
pub mod Planner
pub mod Tree
pub mod Taller
pub mod Emptied
pub mod Log
pub mod Columns

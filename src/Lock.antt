-- ===== src/Lock.antt =====
-- src/transaction/concurrency/lock_manager.{h,cpp} and the lock part of
-- src/transaction/txn_defs.h: multi-granularity no-wait two-phase locking.
pub mod Types
pub mod Queue
pub mod Manager
pub mod TwoPhase
pub mod Grants
pub mod Commit

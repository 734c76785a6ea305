-- ===== src/Recovery.antt =====
-- The records of the log, src/recovery.
pub mod Log
pub mod RoundTrip

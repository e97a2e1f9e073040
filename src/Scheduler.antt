-- ===== src/Scheduler.antt =====
-- The scheduler: the execution of one job.
pub mod Types
pub mod Execute
pub mod Holding
pub mod Safe
pub mod Scan
pub mod Scanned

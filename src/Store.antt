-- ===== src/Store.antt =====
-- spark_broker/store.py: the SQLite database, one transaction a function.
pub mod Tables
pub mod Queue
pub mod Jobs
pub mod Cancel
pub mod Leases
pub mod Artifacts
pub mod Claims
pub mod Pages
pub mod Invariant
pub mod JobSteps
pub mod LeaseSteps
pub mod Idempotency
pub mod Cancellation
pub mod OtherSteps
pub mod Deferral
pub mod Restart
pub mod Terminal
pub mod Final
pub mod Reach

-- ===== src/Contract.antt =====
-- spark_broker/contract.py: the requests that the broker accepts.
pub mod Types
pub mod Validate
pub mod Route
pub mod Whole

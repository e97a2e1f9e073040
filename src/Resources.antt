-- ===== src/Resources.antt =====
-- spark_broker/resources.py: admission of jobs to the GPU, and the leases that grant it.
pub mod Types
pub mod Admission
pub mod Admits
pub mod Probe
pub mod Sample
pub mod Coordinator
pub mod Control
pub mod Lifecycle
pub mod Acquire
pub mod Sole
pub mod Stable
pub mod Kept
pub mod Sound
pub mod Exclusive
pub mod Grants
pub mod Holders
pub mod Window
pub mod Startup
pub mod Pending
pub mod Restarted

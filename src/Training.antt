-- ===== src/Training.antt =====
-- The training controller: the mode of one unit, its checkpoints and its durable authority.
pub mod Types
pub mod Requests
pub mod Receipt
pub mod Mode
pub mod Control
pub mod Kept
pub mod Recovered
pub mod Since
pub mod Settled
pub mod Seen
pub mod Verified
pub mod Wire
pub mod Config

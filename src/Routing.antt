-- ===== src/Routing.antt =====
-- spark_broker/routing.py: which of the installed models takes a request.
pub mod Types
pub mod Context
pub mod Decide
pub mod Preference
pub mod Choice

-- ===== src/Examples.antt =====
-- Tests at fixed inputs, and each theorem applied at one.
mod Data
mod Jobs
mod Leases
mod Gpu
mod Models
mod Requests
mod Training
mod Scheduler

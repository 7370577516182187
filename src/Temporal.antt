-- ===== src/Temporal.antt =====
-- The temporal scheduler, continuum/temporal_scheduler.c.
pub mod Quantum
pub mod Queue
pub mod Core
pub mod Ready
pub mod Select
pub mod Enqueue
pub mod Schedule
pub mod Operations
pub mod Order
pub mod Losses
pub mod Control
mod Tests

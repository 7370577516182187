-- ===== src/Conduit.antt =====
-- The conduit IPC system, continuum/conduit_ipc.c.
pub mod Ring
pub mod Message
pub mod WaitQueue
pub mod Endpoint
pub mod Reader
pub mod Stream
pub mod Delivery
pub mod Fifo
pub mod Exchange
pub mod Registry
pub mod Broadcast
mod Tests

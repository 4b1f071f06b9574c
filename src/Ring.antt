-- ===== src/Ring.antt =====
-- common/comm/src/shm_ring_buffer.cpp.
pub mod Control
pub mod State
pub mod Slots
pub mod Reclaim
pub mod Consumers
pub mod Metrics
pub mod Layout
pub mod Publish
pub mod Invariant
pub mod Safety
pub mod Log
pub mod Delivery
pub mod Waiting
pub mod Append
pub mod Progress
pub mod Head
pub mod History
mod Tests

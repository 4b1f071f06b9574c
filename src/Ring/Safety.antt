-- ===== src/Ring/Safety.antt =====
-- Every call keeps the ring's invariant.
pub mod Reserve
pub mod Reclaim
pub mod Consumers
pub mod Layout

-- ===== src/Memory.antt =====
-- src/memory: the pool of blocks and the planner of memory types.
pub mod Buckets
pub mod Pool
mod Totals
pub mod Invariant
pub mod Ownership
pub mod Planner
mod Tests

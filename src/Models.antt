-- ===== src/Models.antt =====
-- src/models: names of weights, their placement on devices, and the loader of weights.
pub mod Names
pub mod Sharding
pub mod Partition
pub mod Quantized
pub mod Config
pub mod Weights
mod Tests

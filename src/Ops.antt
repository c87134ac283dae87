-- ===== src/Ops.antt =====
-- src/ops: the caches that the mixers of a layer keep between two forward passes.
pub mod Storage
pub mod Attention
pub mod DeltaNet

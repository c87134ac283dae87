-- ===== src/Generator.antt =====
-- src/generator.cc, `Generator::generate`: the greedy decode loop and the loop of speculative
-- decoding with multi-token prediction (MTP). The numeric work of the network (the forward passes,
-- the copies of tensors, the read-back of logits) is the parameter `Network`; a token id is a number,
-- `none` is an `ApiStatus` that is not OK, and times are left out.
mod Network
mod Defs
pub mod Probe
pub mod Api
pub mod Session
pub mod Caches
pub mod Argmax
pub mod Rows
pub mod Causal
pub mod Equivalence
pub mod Progress
pub mod Counts
mod Tests
pub use Network.*
unfoldable pub use Defs.*

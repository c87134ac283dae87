-- ===== src/Io.antt =====
-- src/io: the loader of safetensors files.
pub mod Files
pub mod Attempt
pub mod Shard
pub mod Loader
pub mod Load
mod Tests

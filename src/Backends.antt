-- ===== src/Backends.antt =====
-- src/backends: the registry of backends.
pub mod Registry
pub mod Manager
mod Tests

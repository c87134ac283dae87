-- ===== src/Core.antt =====
-- src/core: status codes, devices, element types, shapes and tensors.
mod Status
mod Devices
pub mod Tensors
mod Tests
pub use Status.*
pub use Devices.*

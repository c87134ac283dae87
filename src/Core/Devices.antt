-- ===== src/Core/Devices.antt =====
-- src/core/device.h, src/core/dtype.h and the memory types of src/backends/interface/backend.h.
use Prim.Native.String.{String}
use vicold_hybrid_ai.Base.{ℕ, Bool, true, false}

pub data DeviceType : Type 0 where
  cpu integrated_gpu discrete_gpu unknown_device : DeviceType

pub record Device : Type 0 where
  pub id : ℕ
  pub device_type : DeviceType
  pub backend : String
  pub unified_memory_supported : Bool

abbrev pub is_cpu_type : DeviceType → Bool
is_cpu_type cpu = true
is_cpu_type _ = false

abbrev pub is_gpu_type : DeviceType → Bool
is_gpu_type integrated_gpu = true
is_gpu_type discrete_gpu = true
is_gpu_type _ = false

abbrev pub is_cpu : Device → Bool
is_cpu d = is_cpu_type d.device_type

abbrev pub is_gpu : Device → Bool
is_gpu d = is_gpu_type d.device_type

abbrev pub cpu_device : Device
cpu_device = record { id = 0; device_type = cpu; backend = "cpu"; unified_memory_supported = false }

-- `Device()`
abbrev pub no_device : Device
no_device = record { id = 0; device_type = cpu; backend = ""; unified_memory_supported = false }

pub data MemoryType : Type 0 where
  device_memory unified host_pinned host : MemoryType

pub data DType : Type 0 where
  fp32 fp16 bf16 fp8_e4m3 fp8_e5m2 int8 int32 int64 uint8 boolean : DType

abbrev pub size_of_d_type : DType → ℕ
size_of_d_type fp32 = 4
size_of_d_type fp16 = 2
size_of_d_type bf16 = 2
size_of_d_type fp8_e4m3 = 1
size_of_d_type fp8_e5m2 = 1
size_of_d_type int8 = 1
size_of_d_type int32 = 4
size_of_d_type int64 = 8
size_of_d_type uint8 = 1
size_of_d_type boolean = 1

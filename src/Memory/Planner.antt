-- ===== src/Memory/Planner.antt =====
-- src/memory/memory_planner.cc: the choice of a memory type for a device.
use vicold_hybrid_ai.Base.{
  size_mod, ℕ, ◌+◌, ◌-◌, ◌*◌, ◌%◌, ◌^◌, ◌<◌, ◌≤◌, ◌≡◌, Bool, true, false, both, refl, ◌&&◌, ◌⊎◌,
  inl, inr, Bool-cases, leb, if◌then◌else◌, if-elim, arith,
}
use vicold_hybrid_ai.Core.{
  Device, DeviceType, cpu, integrated_gpu, discrete_gpu, unknown_device, is_cpu, MemoryType,
  device_memory, unified, host,
}

pub record Policy : Type 0 where
  pub memory_type : MemoryType
  pub resident_limit_bytes : ℕ
  pub allow_offload : Bool

abbrev pub igpu_total_bytes : ℕ
igpu_total_bytes = 13 * 1024 * 1024 * 1024

abbrev pub dgpu_total_bytes : ℕ
dgpu_total_bytes = 8 * 1024 * 1024 * 1024

abbrev pub safety_headroom : ℕ
safety_headroom = 512 * 1024 * 1024

abbrev pub required_bytes : ℕ → ℕ → ℕ
required_bytes model_bytes kv_bytes =
    ((model_bytes + kv_bytes) % size_mod + safety_headroom) % size_mod

abbrev pub is_integrated : DeviceType → Bool
is_integrated integrated_gpu = true
is_integrated _ = false

abbrev pub igpu_policy : Device → ℕ → Policy
igpu_policy device required =
    if leb required igpu_total_bytes && device.unified_memory_supported
    then record {
      memory_type = unified;
      resident_limit_bytes = igpu_total_bytes - safety_headroom;
      allow_offload = false;
    }
    else record {
      memory_type = unified;
      resident_limit_bytes = igpu_total_bytes - safety_headroom;
      allow_offload = true;
    }

abbrev pub dgpu_policy : ℕ → Policy
dgpu_policy required =
    if leb required dgpu_total_bytes
    then record {
      memory_type = device_memory;
      resident_limit_bytes = dgpu_total_bytes - safety_headroom;
      allow_offload = false;
    }
    else record { memory_type = host; resident_limit_bytes = 0; allow_offload = true }

unfoldable pub select_policy : Device → ℕ → ℕ → Policy
select_policy device model_bytes kv_bytes =
    if is_cpu device
    then record { memory_type = host; resident_limit_bytes = 0; allow_offload = false }
    else if is_integrated device.device_type
    then igpu_policy device (required_bytes model_bytes kv_bytes)
    else dgpu_policy (required_bytes model_bytes kv_bytes)

unfoldable pub select_memory_type : Device → ℕ → MemoryType
unfolding select_policy
select_memory_type device model_bytes = (select_policy device model_bytes 0).memory_type

-- The policy of a device that is not a CPU, for a number of bytes. For an integrated GPU, in unified
-- memory up to 13 GiB less 512 MiB, without offload exactly if the bytes fit that and unified memory is
-- supported. For any other GPU, in device memory up to 8 GiB less 512 MiB if the bytes fit that, and
-- otherwise in host memory, with offload and no limit to what is resident.
abbrev pub IsSuitable : DeviceType → Bool → ℕ → Policy → Type 0
IsSuitable integrated_gpu supported bytes policy =
    (policy.memory_type ≡ unified)
    × (policy.resident_limit_bytes ≡ 13421772800)
    × (((policy.allow_offload ≡ false) × (bytes ≤ 13421772800) × (supported ≡ true))
        ⊎ ((policy.allow_offload ≡ true) × ((13421772800 < bytes) ⊎ (supported ≡ false))))
IsSuitable _ supported bytes policy =
    ((policy.allow_offload ≡ false)
      × (policy.memory_type ≡ device_memory)
      × (policy.resident_limit_bytes ≡ 8053063680)
      × (bytes ≤ 8053063680))
    ⊎ ((policy.allow_offload ≡ true)
        × (policy.memory_type ≡ host)
        × (policy.resident_limit_bytes ≡ 0)
        × (8053063680 < bytes))

abbrev pub IsSensible : Device → ℕ → Policy → Type 0
IsSensible device = IsSuitable device.device_type device.unified_memory_supported

igpu_policy-IsSuitable :
    (device : Device) (bytes required : ℕ)
    → required ≡ bytes + safety_headroom
    → IsSuitable integrated_gpu device.unified_memory_supported bytes (igpu_policy device required)
igpu_policy-IsSuitable device bytes required sum =
    let supported = device.unified_memory_supported in
    if-elim (IsSuitable integrated_gpu supported bytes) (leb required igpu_total_bytes && supported)
      (λ fits.
        let (small, on) = both (leb required igpu_total_bytes) supported fits in
        (refl, refl, inl (refl, ground (arith, sum), on)))
      λ over. (
        refl,
        refl,
        inr (
          refl,
          elim (Bool-cases supported) [ inl on ↦ inl (ground (arith, sum)) | inr off ↦ inr off ],
        ),
      )

dgpu_policy-IsSuitable :
    (supported : Bool) (bytes required : ℕ)
    → required ≡ bytes + safety_headroom
    → IsSuitable discrete_gpu supported bytes (dgpu_policy required)
dgpu_policy-IsSuitable supported bytes required sum =
    if-elim (IsSuitable discrete_gpu supported bytes) (leb required dgpu_total_bytes)
      (λ fits. inl (refl, refl, refl, ground (arith, sum)))
      λ over. inr (refl, refl, refl, ground (arith, sum))

policy-IsSuitable :
    (kind : DeviceType) (device : Device) (bytes required : ℕ)
    → required ≡ bytes + safety_headroom
    → IsSuitable kind device.unified_memory_supported bytes
        (if is_integrated kind then igpu_policy device required else dgpu_policy required)
policy-IsSuitable integrated_gpu device bytes required sum =
    igpu_policy-IsSuitable device bytes required sum
policy-IsSuitable cpu device bytes required sum =
    dgpu_policy-IsSuitable device.unified_memory_supported bytes required sum
policy-IsSuitable discrete_gpu device bytes required sum =
    dgpu_policy-IsSuitable device.unified_memory_supported bytes required sum
policy-IsSuitable unknown_device device bytes required sum =
    dgpu_policy-IsSuitable device.unified_memory_supported bytes required sum

-- For a device that is not a CPU, where the sum of the bytes with 512 MiB does not wrap: an integrated
-- GPU gets unified memory up to 13 GiB less 512 MiB, without offload exactly if the model and its cache
-- fit that and unified memory is supported; any other one gets its own memory up to 8 GiB less 512 MiB,
-- without offload, if they fit that, and otherwise host memory with offload and a limit of 0.
pub select_policy-IsSensible :
    (device : Device) (model_bytes kv_bytes : ℕ)
    → is_cpu device ≡ false
    → model_bytes + kv_bytes + safety_headroom < 2 ^ 64
    → IsSensible device (model_bytes + kv_bytes) (select_policy device model_bytes kv_bytes)
unfolding select_policy
select_policy-IsSensible device model_bytes kv_bytes gpu small =
    let required = required_bytes model_bytes kv_bytes in
    let sum : required ≡ (model_bytes + kv_bytes) + safety_headroom = omega arith in
    if-elim (IsSensible device (model_bytes + kv_bytes)) (is_cpu device)
      (λ on_cpu. absurd (ground arith))
      λ _. policy-IsSuitable device.device_type device (model_bytes + kv_bytes) required sum

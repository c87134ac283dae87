-- ===== src/Models/Weights/Loaded.antt =====
-- src/models/qwen3_weights.cc: what load_tensor and load_quantized give.
use vicold_hybrid_ai.Base.{
  ℕ, ◌≡◌, refl, true, false, ◌&&◌, ◌⊎◌, inl, inr, Option, none, some, List, if-elim,
}
use vicold_hybrid_ai.Core.{
  ok, invalid_model, unsupported_d_type, Device, is_cpu, MemoryType, host, device_memory,
  Ensures-of, Ensures, Ensures-then, Ensures-bind, Ensures-require,
}
use vicold_hybrid_ai.Models.Names.{scale_name}
use vicold_hybrid_ai.Models.Partition.{TensorInfo}
use vicold_hybrid_ai.Models.Quantized.{
  Tensor, no_tensor, QuantizedWeight, no_quantization, block2d, validate_weight, is_dense, is_fp8,
}
use vicold_hybrid_ai.Models.Weights.{
  IsLoaded, TensorSource, memory_type_for_device, has, load_tensor, load_dense, load_scaled,
  load_named, load_quantized,
}

-- The tensor of a name, loaded into the memory of a device: of the host for a CPU, and otherwise of the
-- device itself.
pub record IsTensor (loader : TensorSource) (device : Device) (name : List ℕ) (t : Tensor)
    : Type 0 where
  pub memory_type : MemoryType
  pub on_cpu : is_cpu device ≡ true → memory_type ≡ host
  pub on_gpu : is_cpu device ≡ false → memory_type ≡ device_memory
  pub loaded : IsLoaded device memory_type t
  pub read : loader.load name device memory_type ≡ ok t

-- The scales of a weight, if it has any, come from the tensor of their name, and stay in host memory.
abbrev pub HasScales : TensorSource → Device → List ℕ → Tensor → Type 0
HasScales loader device base_name scales =
    (scales ≡ no_tensor)
    ⊎ ((scales_name : List ℕ) × (scale_name base_name ≡ some scales_name)
        × IsLoaded device host scales
        × (loader.load_as_fp32 scales_name device host ≡ ok scales))

-- A weight that has passed its checks: its values are the tensor of a name.
abbrev pub IsPlaced : TensorSource → Device → List ℕ → QuantizedWeight → Type 0
IsPlaced loader device base_name w =
    IsTensor loader device base_name w.values
    × HasScales loader device base_name w.scales
    × (validate_weight w ≡ ok tt)

for_device-cpu : (device : Device) → is_cpu device ≡ true → memory_type_for_device device ≡ host
for_device-cpu device h = rw h refl

for_device-gpu :
    (device : Device) → is_cpu device ≡ false → memory_type_for_device device ≡ device_memory
for_device-gpu device h = rw h refl

module _ (loader : TensorSource) (device : Device) where
  source-IsTensor :
      (name : List ℕ)
      → Ensures
          (IsTensor loader device name)
          (loader.load name device (memory_type_for_device device))
  source-IsTensor name =
      let memory_type = memory_type_for_device device in
      Ensures-of (IsTensor loader device name) (loader.load name device memory_type) λ t read.
        record {
          memory_type = memory_type;
          on_cpu = for_device-cpu device;
          on_gpu = for_device-gpu device;
          loaded = loader.load-IsLoaded name device memory_type t read;
          read = read;
        }

  pub load_tensor-IsTensor :
      (name : List ℕ) → Ensures (IsTensor loader device name) (load_tensor loader name device)
  unfolding load_tensor
  load_tensor-IsTensor name =
      Ensures-require (IsTensor loader device name) (has loader name) invalid_model _
        λ _. source-IsTensor name

  load_dense-IsPlaced :
      (base_name : List ℕ)
      → Ensures (IsPlaced loader device base_name) (load_dense loader base_name device)
  unfolding load_dense
  load_dense-IsPlaced base_name =
      let P = IsPlaced loader device base_name in
      Ensures-then (IsTensor loader device base_name) P
        (loader.load base_name device (memory_type_for_device device)) _ (source-IsTensor base_name)
        λ values loaded.
          let w : QuantizedWeight = record {
            values = values;
            scales = no_tensor;
            quantization = no_quantization;
          } in
          Ensures-bind P (validate_weight w) _ λ _ valid. (loaded, inl refl, valid)

  load_scaled-IsPlaced :
      (base_name scales_name : List ℕ)
      → scale_name base_name ≡ some scales_name
      → Ensures (IsPlaced loader device base_name) (load_scaled loader base_name scales_name device)
  unfolding load_scaled
  load_scaled-IsPlaced base_name scales_name named =
      let P = IsPlaced loader device base_name in
      Ensures-then (IsTensor loader device base_name) P
        (loader.load base_name device (memory_type_for_device device)) _ (source-IsTensor base_name)
        λ values loaded.
          Ensures-bind P (loader.load_as_fp32 scales_name device host) _ λ scales scaled.
            let w : QuantizedWeight = record {
              values = values;
              scales = scales;
              quantization = record {
                scale_layout = block2d;
                block_rows = 128;
                block_columns = 128;
              };
            } in
            let s = loader.load_as_fp32-IsLoaded scales_name device host scales scaled in
            Ensures-bind P (validate_weight w) _
              λ _ valid. (loaded, inr (scales_name, named, s, scaled), valid)

  load_named-IsPlaced :
      (base_name : List ℕ) (scales_name : Option (List ℕ)) (info : Option TensorInfo)
      → scale_name base_name ≡ scales_name
      → Ensures
          (IsPlaced loader device base_name)
          (load_named loader base_name device scales_name info)
  load_named-IsPlaced base_name none info named = tt
  load_named-IsPlaced base_name (some scales_name) none named = tt
  load_named-IsPlaced base_name (some scales_name) (some info) named =
      let P = IsPlaced loader device base_name in
      if-elim (Ensures P) (is_dense info.dtype) (λ _. load_dense-IsPlaced base_name)
        λ _.
          Ensures-require P (is_fp8 info.dtype && has loader scales_name) unsupported_d_type _
            λ _. load_scaled-IsPlaced base_name scales_name named

  pub load_quantized-IsPlaced :
      (base_name : List ℕ)
      → Ensures (IsPlaced loader device base_name) (load_quantized loader base_name device)
  unfolding load_quantized
  load_quantized-IsPlaced base_name =
      load_named-IsPlaced base_name (scale_name base_name) (loader.checkpoint.tensor_info base_name)
        refl

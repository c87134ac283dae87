-- ===== src/Models/Weights/Source.antt =====
-- src/models/qwen3_weights.cc and src/io/safetensor_loader.cc: the loader of weights over an open
-- SafeTensorLoader.
use vicold_hybrid_ai.Base.{
  ℕ, ◌+◌, ◌*◌, subst, ◌≡◌, refl, true, Option, none, some, List, length, ◌||◌, ◌==◌, if-elim,
}
use vicold_hybrid_ai.Core.{
  Result, ok, err, Device, MemoryType, invalid_argument, invalid_device, invalid_model,
  out_of_memory, unsupported_d_type, file_not_found, Ensures, Ensures-bind, Ensures-require,
  Ensures-then, ok-injective,
}
use vicold_hybrid_ai.Core.Tensors.{numel}
use vicold_hybrid_ai.Io.Files.{Files, Backend}
use vicold_hybrid_ai.Io.Shard.{SafeTensorInfo}
use vicold_hybrid_ai.Io.Loader.{SafeTensorLoader, tensor_info}
use vicold_hybrid_ai.Io.Load.{
  LoadedTensor, or_error, source_of, size_of, read_at, staging_type, load_found, load, load_as_fp32,
  widen, is_bf16, is_fp32, tensor_names,
}
use vicold_hybrid_ai.Models.Partition.{TensorInfo}
use vicold_hybrid_ai.Models.Quantized.{Tensor}
use vicold_hybrid_ai.Models.Weights.{TensorSource, IsLoaded}

abbrev pub tensor_of : LoadedTensor → Tensor
tensor_of t = record {
  has_buffer = true;
  dtype = t.dtype;
  shape = t.shape;
  device = t.device;
  memory_type = t.memory_type;
}

abbrev pub as_tensor : Result LoadedTensor → Result Tensor
as_tensor (ok t) = ok (tensor_of t)
as_tensor (err code) = err code

abbrev pub info_of : Option SafeTensorInfo → Option TensorInfo
info_of none = none
info_of (some info) =
    some (record { dtype = info.dtype; data_begin = info.data_begin; data_end = info.data_end })

abbrev pub IsOn : Device → MemoryType → LoadedTensor → Type 0
IsOn device memory_type t = (t.device ≡ device) × (t.memory_type ≡ memory_type)

load_found-IsOn :
    (files : Files) (l : SafeTensorLoader) (name : List ℕ) (info : SafeTensorInfo) (device : Device)
    (memory_type : MemoryType) (backend : Backend)
    → Ensures (IsOn device memory_type) (load_found files l name info device memory_type backend)
unfolding load_found
load_found-IsOn files l name info device memory_type backend =
    let P = IsOn device memory_type in
    Ensures-require P (backend.create_buffer (size_of info) memory_type) out_of_memory _ λ _.
      Ensures-bind P (source_of l name) _ λ source _.
        Ensures-bind P (or_error file_not_found (files.content source.0)) _ λ content _.
          Ensures-require P (backend.allocate (staging_type device) (size_of info)) out_of_memory _
            λ _.
              let bytes = read_at (source.1 + info.data_begin) (size_of info) content in
              Ensures-require P (size_of info == 0 || length bytes == size_of info) invalid_model _
                λ _.
                  Ensures-bind P (backend.memcpy_h2d bytes) _
                    λ _ _. Ensures-bind P backend.synchronize _ λ _ _. (refl, refl)

module _ (files : Files) (create_backend : Device → Option Backend) (l : SafeTensorLoader) where
  pub load-IsOn :
      (name : List ℕ) (device : Device) (memory_type : MemoryType)
      → Ensures (IsOn device memory_type) (load files create_backend l name device memory_type)
  unfolding load
  load-IsOn name device memory_type =
      Ensures-bind (IsOn device memory_type) (or_error invalid_argument (tensor_info l name)) _
        λ info _.
          Ensures-bind (IsOn device memory_type) (or_error invalid_device (create_backend device)) _
            λ backend _. load_found-IsOn files l name info device memory_type backend

  pub load_as_fp32-IsOn :
      (name : List ℕ) (device : Device) (memory_type : MemoryType)
      → Ensures
          (IsOn device memory_type)
          (load_as_fp32 files create_backend l name device memory_type)
  unfolding load_as_fp32 widen
  load_as_fp32-IsOn name device memory_type =
      let P = IsOn device memory_type in
      Ensures-bind P (or_error invalid_argument (tensor_info l name)) _ λ info _.
        Ensures-require P (is_bf16 info.dtype || is_fp32 info.dtype) unsupported_d_type _ λ _.
          Ensures-then P P (load files create_backend l name device memory_type) _
            (load-IsOn name device memory_type)
            λ source on.
              if-elim (Ensures P) (is_fp32 info.dtype) (λ _. on)
                λ _. Ensures-bind P (or_error invalid_device (create_backend device)) _ λ backend _.
                  Ensures-require P (backend.create_buffer (numel source.shape * 4) memory_type)
                    out_of_memory _ λ _. on

  pub as_tensor-IsLoaded :
      (device : Device) (memory_type : MemoryType) (r : Result LoadedTensor) (t : Tensor)
      → Ensures (IsOn device memory_type) r
      → as_tensor r ≡ ok t
      → IsLoaded device memory_type t
  as_tensor-IsLoaded device memory_type (ok loaded) t on h =
      subst (IsLoaded device memory_type) (ok-injective h)
        (record { has_buffer = refl; same_device = on.0; same_memory_type = on.1 })
  as_tensor-IsLoaded device memory_type (err code) t on h = absurd (cc)

  -- The loader of weights takes its tensors from the files.
  abbrev pub file_source : TensorSource
  unfolding load load_as_fp32
  file_source = record {
    checkpoint = record {
      tensor_names = tensor_names l;
      tensor_info = λ name. info_of (tensor_info l name);
    };
    load =
        λ name device memory_type. as_tensor (load files create_backend l name device memory_type);
    load_as_fp32 = λ name device memory_type.
        as_tensor (load_as_fp32 files create_backend l name device memory_type);
    load-IsLoaded = λ name device memory_type t h.
        as_tensor-IsLoaded device memory_type (load files create_backend l name device memory_type)
          t (load-IsOn name device memory_type) h;
    load_as_fp32-IsLoaded = λ name device memory_type t h.
        as_tensor-IsLoaded device memory_type
          (load_as_fp32 files create_backend l name device memory_type) t
          (load_as_fp32-IsOn name device memory_type) h;
  }

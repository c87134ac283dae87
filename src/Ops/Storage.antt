-- ===== src/Ops/Storage.antt =====
-- Tensors with their buffers (src/core/tensor.h, src/backends/interface/backend.h), as far as copies of
-- caches go. A buffer has an address in a heap, so that two tensors may share it; the memory of a buffer
-- that no tensor has any more stays in the heap. An allocation gives a new buffer.
pub mod Heap
pub mod Copies
use vicold_hybrid_ai.Base.{
  ℕ, ◌*◌, ltb, ℤ, pos, negsuc, Bool, true, false, ◌&&◌, Option, none, some, List, [], ◌∷◌, ◌++◌,
  length, get_elem?, set, take, drop, replicate, ◌==◌, leb, same_text, codes,
}
use mathlib.Core.Option.{map}
use vicold_hybrid_ai.Core.{
  Device, no_device, DeviceType, cpu, integrated_gpu, discrete_gpu, unknown_device, DType, fp32,
  fp16, bf16, fp8_e4m3, fp8_e5m2, int8, int32, int64, uint8, boolean, size_of_d_type, MemoryType,
  device_memory, unified, host_pinned, host, Result, ok, err, StatusCode, out_of_memory,
  invalid_argument, require, ◌>>=◌, ◌>>◌,
}
use vicold_hybrid_ai.Core.Tensors.{numel}

pub record Buffer : Type 0 where
  pub memory_type : MemoryType
  pub bytes : List ℕ

abbrev pub Heap : Type 0
Heap = List Buffer

pub record Tensor : Type 0 where
  pub buffer : Option ℕ
  pub dtype : DType
  pub shape : List ℕ
  pub device : Device

-- `Tensor()`
abbrev pub no_tensor : Tensor
no_tensor = record { buffer = none; dtype = fp32; shape = []; device = no_device }

abbrev pub nbytes : Tensor → ℕ
nbytes t = numel t.shape * size_of_d_type t.dtype

-- The bytes of a tensor.
abbrev pub contents : Heap → Tensor → Option (List ℕ)
contents h t = elim t.buffer [
  | none ↦ none
  | some a ↦ map (λ b. take (nbytes t) b.bytes) (get_elem? h a)
]

-- The tests for equality.
abbrev d_type_index : DType → ℕ
d_type_index fp32 = 0
d_type_index fp16 = 1
d_type_index bf16 = 2
d_type_index fp8_e4m3 = 3
d_type_index fp8_e5m2 = 4
d_type_index int8 = 5
d_type_index int32 = 6
d_type_index int64 = 7
d_type_index uint8 = 8
d_type_index boolean = 9

abbrev memory_type_index : MemoryType → ℕ
memory_type_index device_memory = 0
memory_type_index unified = 1
memory_type_index host_pinned = 2
memory_type_index host = 3

abbrev device_type_index : DeviceType → ℕ
device_type_index cpu = 0
device_type_index integrated_gpu = 1
device_type_index discrete_gpu = 2
device_type_index unknown_device = 3

abbrev pub same_d_type : DType → DType → Bool
same_d_type a b = d_type_index a == d_type_index b

abbrev pub same_memory_type : MemoryType → MemoryType → Bool
same_memory_type a b = memory_type_index a == memory_type_index b

-- `Device::operator==`
abbrev pub same_device : Device → Device → Bool
same_device a b =
    (a.id == b.id)
    && (device_type_index a.device_type == device_type_index b.device_type)
    && same_text (codes a.backend) (codes b.backend)

abbrev pub same_shape : List ℕ → List ℕ → Bool
same_shape = same_text

-- What the backends answer.
pub record Machine : Type 0 where
  pub has_backend : Device → Bool
  pub create_buffer : Device → ℕ → MemoryType → Bool
  pub memcpy_d2d : Device → ℕ → Result (Unit {0})
  pub synchronize : Device → Result (Unit {0})

-- The first `n` bytes of a buffer over those of another.
abbrev pub overwrite : Heap → ℕ → ℕ → Option Buffer → Option Buffer → Heap
overwrite h target n (some b) (some a) =
    set h target (record b { bytes = take n a.bytes ++ drop n b.bytes })
overwrite h target n _ _ = h

unfoldable pub memcpy : Heap → ℕ → ℕ → ℕ → Heap
memcpy h target source n = overwrite h target n (get_elem? h target) (get_elem? h source)

abbrev pub buffer_at : Heap → Option ℕ → Option Buffer
buffer_at h none = none
buffer_at h (some a) = get_elem? h a

-- Whether a buffer can take the copy of a tensor in.
abbrev pub fits_buffer : Tensor → Option Buffer → Option Buffer → Bool
fits_buffer source (some from) (some b) =
    same_memory_type b.memory_type from.memory_type && leb (nbytes source) (length b.bytes)
fits_buffer source _ _ = false

abbrev pub fits : Heap → Tensor → Tensor → Bool
fits h source destination =
    same_shape destination.shape source.shape
    && same_d_type destination.dtype source.dtype
    && same_device destination.device source.device
    && fits_buffer source (buffer_at h source.buffer) (buffer_at h destination.buffer)

-- The buffer of the copy: that of the destination, or a new one.
unfoldable pub target : Machine → Heap → Bool → Tensor → Buffer → Option ℕ → Result (Heap × ℕ)
target m h true source from (some a) = ok (h, a)
target m h true source from none = err out_of_memory
target m h false source from old = do
  require (m.create_buffer source.device (nbytes source) from.memory_type) out_of_memory
  ok (
    h ++ record { memory_type = from.memory_type; bytes = replicate (nbytes source) 0 } ∷ [],
    length h,
  )

abbrev pub or_invalid {ℓ} : {A : Type ℓ} → Option A → Result A
or_invalid (some a) = ok a
or_invalid none = err invalid_argument

-- The copies of two tensors over two others, as both caches make them.
unfoldable pub copy_pair :
    Machine → Heap → ℕ × ℕ → Tensor × Tensor → Tensor × Tensor → Result (Heap × (Tensor × Tensor))
unfolding target memcpy
copy_pair m h (p, q) (s, t) (d, e) = do
  from ← or_invalid (get_elem? h p)
  from' ← or_invalid (get_elem? h q)
  let reusable = fits h s d && fits h t e
  (h1, a) ← target m h reusable s from d.buffer
  (h2, b) ← target m h1 reusable t from' e.buffer
  m.memcpy_d2d s.device (nbytes s)
  let h3 = memcpy h2 a p (nbytes s)
  m.memcpy_d2d s.device (nbytes t)
  let h4 = memcpy h3 b q (nbytes t)
  m.synchronize s.device
  ok (h4, (record s { buffer = some a }, record t { buffer = some b }))

-- `a < b`, for `int64_t`.
abbrev pub less : ℤ → ℤ → Bool
less (pos a) (pos b) = ltb a b
less (pos a) (negsuc b) = false
less (negsuc a) (pos b) = true
less (negsuc a) (negsuc b) = ltb b a

abbrev pub has_buffer : Tensor → Bool
has_buffer t = elim t.buffer [ none ↦ false | some a ↦ true ]

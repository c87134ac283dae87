-- ===== src/Io/Load.antt =====
-- src/io/safetensor_loader.cc: load, load_as_fp32 and tensor_names of an open loader. A position in a
-- file does not wrap, and reading past the end gives the bytes that are there.
pub mod Transfer
use vicold_hybrid_ai.Base.{
  ℕ, zero, suc, ◌+◌, ◌-◌, ◌*◌, ◌≡◌, refl, Bool, true, false, ◌||◌, ◌&&◌, not, Option, none, some,
  List, [], ◌∷◌, ◌++◌, length, take, drop, ltb, ◌==◌, if◌then◌else◌, arith, find, is_empty, map,
}
use vicold_hybrid_ai.Core.{
  Result, ok, err, StatusCode, invalid_model, file_not_found, invalid_argument, invalid_device,
  out_of_memory, unsupported_d_type, DType, fp32, bf16, Device, is_cpu, MemoryType, host,
  host_pinned, ◌>>=◌, ◌>>◌, require,
}
use vicold_hybrid_ai.Core.Tensors.{numel}
use vicold_hybrid_ai.Io.Files.{Files, Backend}
use vicold_hybrid_ai.Io.Shard.{SafeTensorInfo, Shard}
use vicold_hybrid_ai.Io.Loader.{SafeTensorLoader, tensor_info}

-- A tensor with a buffer, and the bytes that it holds.
pub record LoadedTensor : Type 0 where
  pub shape : List ℕ
  pub dtype : DType
  pub device : Device
  pub memory_type : MemoryType
  pub bytes : List ℕ

abbrev pub is_bf16 : DType → Bool
is_bf16 bf16 = true
is_bf16 _ = false

abbrev pub is_fp32 : DType → Bool
is_fp32 fp32 = true
is_fp32 _ = false

abbrev pub or_error {ℓ} : {A : Type ℓ} → StatusCode → Option A → Result A
or_error code (some a) = ok a
or_error code none = err code

-- The file of a tensor, and where its data section begins.
abbrev pub shard_source : SafeTensorLoader → List ℕ → Result (List ℕ × ℕ)
shard_source l name = do
  shard_name ← or_error invalid_model (find name l.tensor_shards)
  shard ← or_error invalid_model (find shard_name l.shards)
  ok (shard.path, shard.data_section_offset)

unfoldable pub source_of : SafeTensorLoader → List ℕ → Result (List ℕ × ℕ)
source_of l name =
    if is_empty l.tensor_shards then ok (l.path, l.data_section_offset) else shard_source l name

abbrev pub size_of : SafeTensorInfo → ℕ
size_of info = info.data_end - info.data_begin

-- `size` bytes of a content, from a position on.
abbrev pub read_at : ℕ → ℕ → List ℕ → List ℕ
read_at position size content = take size (drop position content)

abbrev pub staging_type : Device → MemoryType
staging_type device = if is_cpu device then host else host_pinned

-- Behind the search of the tensor: buffer, file, staging memory, copy.
unfoldable pub load_found :
    Files
    → SafeTensorLoader
    → List ℕ
    → SafeTensorInfo
    → Device
    → MemoryType
    → Backend
    → Result LoadedTensor
unfolding source_of
load_found files l name info device memory_type backend = do
  require (backend.create_buffer (size_of info) memory_type) out_of_memory
  source ← source_of l name
  content ← or_error file_not_found (files.content source.0)
  require (backend.allocate (staging_type device) (size_of info)) out_of_memory
  let bytes = read_at (source.1 + info.data_begin) (size_of info) content
  require (size_of info == 0 || length bytes == size_of info) invalid_model
  backend.memcpy_h2d bytes
  backend.synchronize
  ok (record {
    shape = info.shape;
    dtype = info.dtype;
    device = device;
    memory_type = memory_type;
    bytes = bytes;
  })

-- `bits = input[i] << 16`: each number of two bytes, the lowest first, gets two zero bytes in front.
unfoldable pub widen : ℕ → List ℕ → List ℕ
widen (suc count) (low ∷ high ∷ bytes) = 0 ∷ 0 ∷ low ∷ high ∷ widen count bytes
widen _ _ = []

module _ (files : Files) (create_backend : Device → Option Backend) where
  unfoldable pub load : SafeTensorLoader → List ℕ → Device → MemoryType → Result LoadedTensor
  unfolding load_found
  load l name device memory_type = do
    info ← or_error invalid_argument (tensor_info l name)
    backend ← or_error invalid_device (create_backend device)
    load_found files l name info device memory_type backend

  abbrev pub converted : Device → MemoryType → LoadedTensor → Result LoadedTensor
  unfolding widen
  converted device memory_type source = do
    backend ← or_error invalid_device (create_backend device)
    require (backend.create_buffer (numel source.shape * 4) memory_type) out_of_memory
    ok (record source { dtype = fp32; bytes = widen (numel source.shape) source.bytes })

  unfoldable pub load_as_fp32 :
      SafeTensorLoader → List ℕ → Device → MemoryType → Result LoadedTensor
  unfolding load
  load_as_fp32 l name device memory_type = do
    info ← or_error invalid_argument (tensor_info l name)
    require (is_bf16 info.dtype || is_fp32 info.dtype) unsupported_d_type
    source ← load l name device memory_type
    if is_fp32 info.dtype then ok source else converted device memory_type source

-- Texts in the order of their bytes.
abbrev pub is_less : List ℕ → List ℕ → Bool
is_less xs [] = false
is_less [] (y ∷ ys) = true
is_less (x ∷ xs) (y ∷ ys) = ltb x y || (x == y && is_less xs ys)

unfoldable pub insert_name : List ℕ → List (List ℕ) → List (List ℕ)
insert_name name [] = name ∷ []
insert_name name (n ∷ names) =
    let rest = insert_name name names in if is_less n name then n ∷ rest else name ∷ n ∷ names

-- `std::sort`
unfoldable pub sort_names : List (List ℕ) → List (List ℕ)
unfolding insert_name
sort_names [] = []
sort_names (n ∷ names) = insert_name n (sort_names names)

abbrev pub tensor_names : SafeTensorLoader → List (List ℕ)
tensor_names l = sort_names (map (λ entry. entry.0) l.tensors)

-- ===== src/Io/Load/Transfer.antt =====
-- src/io/safetensor_loader.cc: `load` on a sound loader, whatever the backend answers.
use vicold_hybrid_ai.Base.{
  or_true, ℕ, ◌+◌, ◌-◌, ◌≤◌, ◌≡◌, refl, ◌∙◌, true, ◌||◌, Option, none, some, List, length, take,
  drop, ap, length-take, length-drop, ◌==◌, ==_self, arith, find,
}
use vicold_hybrid_ai.Core.{
  Result, ok, err, invalid_device, out_of_memory, Device, MemoryType, ◌>>=◌, ◌>>◌, require,
}
use vicold_hybrid_ai.Io.Files.{Files, Backend}
use vicold_hybrid_ai.Io.Shard.{SafeTensorInfo, expected_bytes}
use vicold_hybrid_ai.Io.Loader.{SafeTensorLoader}
use vicold_hybrid_ai.Io.Loader.Regions.{weighted}
use vicold_hybrid_ai.Io.Loader.Sound.{IsFile, source_of-file, IsSound}
use vicold_hybrid_ai.Io.Load.{
  LoadedTensor, or_error, source_of, size_of, read_at, staging_type, load_found, load,
}

-- What a user expects of `load`: the bytes of a tensor go through the backend of the device.
abbrev pub transfer :
    Option Backend → SafeTensorInfo → Device → MemoryType → List ℕ → Result LoadedTensor
transfer none info device memory_type bytes = err invalid_device
transfer (some backend) info device memory_type bytes = do
  require (backend.create_buffer (size_of info) memory_type) out_of_memory
  require (backend.allocate (staging_type device) (size_of info)) out_of_memory
  backend.memcpy_h2d bytes
  backend.synchronize
  ok (record {
    shape = info.shape;
    dtype = info.dtype;
    device = device;
    memory_type = memory_type;
    bytes = bytes;
  })

-- The bytes of a tensor in its file: behind the 8 bytes that give the size of the header, and behind the
-- header, from the begin of the tensor to its end, as many as its shape and type need.
pub record IsContentOf (files : Files) (l : SafeTensorLoader) (name : List ℕ)
    (info : SafeTensorInfo) (bytes : List ℕ) : Type 0 where
  pub path : List ℕ
  pub offset : ℕ
  pub file : IsFile l name path offset
  pub content : List ℕ
  pub stored : files.content path ≡ some content
  pub header_size : ℕ
  pub header : header_size ≡ weighted 1 (take 8 content)
  pub cut :
      bytes
      ≡ take (info.data_end - info.data_begin) (drop (8 + header_size + info.data_begin) content)
  pub sized : length bytes ≡ expected_bytes info.shape info.dtype

length-read_at :
    (offset position size : ℕ) (content : List ℕ)
    → offset ≤ length content
    → position + size ≤ length content - offset
    → length (read_at (offset + position) size content) ≡ size
length-read_at offset position size content fits within = omega (
  arith,
  length-take size (drop (offset + position) content),
  length-drop (offset + position) content,
)

load_found-transfer :
    (files : Files) (l : SafeTensorLoader) (name path : List ℕ) (offset : ℕ) (content : List ℕ)
    (info : SafeTensorInfo) (device : Device) (memory_type : MemoryType) (backend : Backend)
    → source_of l name ≡ ok (path, offset)
    → files.content path ≡ some content
    → length (read_at (offset + info.data_begin) (size_of info) content) ≡ size_of info
    → load_found files l name info device memory_type backend
      ≡ transfer
          (some backend)
          info
          device
          memory_type
          (read_at (offset + info.data_begin) (size_of info) content)
unfolding load_found
load_found-transfer files l name path offset content info device memory_type backend source stored
      whole =
    let size = size_of info in
    let enough : (size == 0 || length (read_at (offset + info.data_begin) size content) == size)
        ≡ true =
      rw (whole, ==_self size) (or_true (size == 0)) in
    rw (load_found, source, stored, enough) refl

load_from-transfer :
    (files : Files) (l : SafeTensorLoader) (name path : List ℕ) (offset : ℕ) (content : List ℕ)
    (info : SafeTensorInfo) (device : Device) (memory_type : MemoryType) (backend : Option Backend)
    → source_of l name ≡ ok (path, offset)
    → files.content path ≡ some content
    → length (read_at (offset + info.data_begin) (size_of info) content) ≡ size_of info
    → (or_error invalid_device backend >>= λ b. load_found files l name info device memory_type b)
      ≡ transfer backend info device memory_type
          (read_at (offset + info.data_begin) (size_of info) content)
load_from-transfer files l name path offset content info device memory_type none source stored
      whole =
    refl
load_from-transfer files l name path offset content info device memory_type (some b) source stored
      whole =
    load_found-transfer files l name path offset content info device memory_type b source stored
      whole

-- For a tensor that a sound loader knows, `load` gives what the transfer of its bytes gives, or the
-- error of the transfer: the file is found, and all of the bytes are read.
pub load-transfer :
    (files : Files) (create_backend : Device → Option Backend) (l : SafeTensorLoader)
    (name : List ℕ) (info : SafeTensorInfo) (device : Device) (memory_type : MemoryType)
    → IsSound files l
    → find name l.tensors ≡ some info
    → (bytes : List ℕ) × IsContentOf files l name info bytes
      × (load files create_backend l name device memory_type
          ≡ transfer (create_backend device) info device memory_type bytes)
unfolding load
load-transfer files create_backend l name info device memory_type sound known =
    let s = sound name info known in
    let content = s.region.content in
    let within = s.region.within in
    let bytes = read_at (s.offset + info.data_begin) (size_of info) content in
    let whole : length bytes ≡ size_of info =
      length-read_at s.offset info.data_begin (size_of info) content s.region.fits
        (omega (arith, within.ordered, within.ends)) in
    (
      bytes,
      record {
        path = s.path;
        offset = s.offset;
        content = content;
        file = s.file;
        stored = s.region.stored;
        header_size = s.region.header_size;
        header = s.region.header;
        cut =
            ap (λ n. take (info.data_end - info.data_begin) (drop (n + info.data_begin) content))
              s.region.behind;
        sized = whole ∙ within.sized;
      },
      rw known (
          load_from-transfer files l name s.path s.offset content info device memory_type
            (create_backend device) (source_of-file l name s.path s.offset s.file) s.region.stored
            whole),
    )

-- ===== src/Io/Shard.antt =====
-- src/io/safetensor_loader.cc: parse_shard, the header of a safetensors file.
use vicold_hybrid_ai.Base.{
  ℕ, ℤ, pos, negsuc, ◌+◌, ◌-◌, ◌*◌, ◌%◌, ◌||◌, not, Option, none, some, List, [], ◌∷◌, length, take,
  drop, ltb, ◌==◌, same_text, codes, if◌then◌else◌, size_mod, emplace,
}
use vicold_hybrid_ai.Core.{
  invalid_model, file_not_found, unsupported_d_type, DType, fp32, fp16, bf16, fp8_e4m3, fp8_e5m2,
  int8, int32, int64, uint8, boolean, size_of_d_type,
}
use vicold_hybrid_ai.Core.Tensors.{numel}
use vicold_hybrid_ai.Io.Files.{Files, Json}
use vicold_hybrid_ai.Io.Attempt.{Attempt, done, failed, ◌>>=◌, ◌>>◌, check, or_failed, or_thrown}

pub record SafeTensorInfo : Type 0 where
  pub dtype : DType
  pub shape : List ℕ
  pub data_begin : ℕ
  pub data_end : ℕ

pub record Shard : Type 0 where
  pub path : List ℕ
  pub data_section_offset : ℕ
  pub tensors : List (List ℕ × SafeTensorInfo)

unfoldable pub parse_d_type : List ℕ → Attempt DType
parse_d_type value =
    if same_text value (codes "F32")
    then done fp32
    else if same_text value (codes "F16")
    then done fp16
    else if same_text value (codes "BF16")
    then done bf16
    else if same_text value (codes "F8_E4M3") || same_text value (codes "F8_E4M3FN")
    then done fp8_e4m3
    else if same_text value (codes "F8_E5M2")
    then done fp8_e5m2
    else if same_text value (codes "I8")
    then done int8
    else if same_text value (codes "I32")
    then done int32
    else if same_text value (codes "I64")
    then done int64
    else if same_text value (codes "U8")
    then done uint8
    else if same_text value (codes "BOOL")
    then done boolean
    else failed unsupported_d_type

-- The bytes of a number, the lowest first; shifted bytes do not overlap.
abbrev pub little_endian : List ℕ → ℕ
little_endian [] = 0
little_endian (b ∷ bs) = b + 256 * little_endian bs

abbrev pub read_u64_little_endian : List ℕ → Option ℕ
read_u64_little_endian content =
    if ltb (length content) 8 then none else some (little_endian (take 8 content))

-- "data_offsets": two numbers in order, within the data.
abbrev pub read_offsets : ℕ → List ℕ → Attempt (ℕ × ℕ)
read_offsets data_size (first ∷ last ∷ []) = do
  check (not (ltb last first || ltb data_size last)) invalid_model
  done (first, last)
read_offsets data_size _ = failed invalid_model

-- The dimensions, if none is negative.
abbrev pub read_dims : List ℤ → Attempt (List ℕ)
read_dims [] = done []
read_dims (pos n ∷ dims) = do rest ← read_dims dims; done (n ∷ rest)
read_dims (negsuc n ∷ dims) = failed invalid_model

-- `static_cast<uint64_t>(info.shape.numel()) * SizeOfDType(info.dtype)`, which wraps.
abbrev pub expected_bytes : List ℕ → DType → ℕ
expected_bytes dims dtype = (numel dims * size_of_d_type dtype) % size_mod

module _ (json : Json) where
  unfoldable pub read_entry : ℕ → json.Value → Attempt SafeTensorInfo
  unfolding parse_d_type
  read_entry data_size entry = do
    check (json.is_object entry) invalid_model
    dtype_value ← or_failed invalid_model (json.member (codes "dtype") entry)
    shape_value ← or_failed invalid_model (json.member (codes "shape") entry)
    offsets_value ← or_failed invalid_model (json.member (codes "data_offsets") entry)
    name ← or_thrown (json.text dtype_value)
    dtype ← parse_d_type name
    signed ← or_failed invalid_model (json.integers shape_value)
    offsets ← or_failed invalid_model (json.sizes offsets_value)
    range ← read_offsets data_size offsets
    dims ← read_dims signed
    check (expected_bytes dims dtype == range.1 - range.0) invalid_model
    done (record { dtype = dtype; shape = dims; data_begin = range.0; data_end = range.1 })

  -- The loop over the header's items.
  unfoldable pub read_entries :
      ℕ
      → List (List ℕ × json.Value)
      → List (List ℕ × SafeTensorInfo)
      → Attempt (List (List ℕ × SafeTensorInfo))
  unfolding read_entry
  read_entries data_size [] tensors = done tensors
  read_entries data_size ((name, entry) ∷ items) tensors =
      let skipped = read_entries data_size items tensors in
      let read = read_entry data_size entry >>= λ info.
      read_entries data_size items (emplace name info tensors) in
      if same_text name (codes "__metadata__") then skipped else read

  unfoldable pub parse_shard : Files → List ℕ → Attempt Shard
  unfolding read_entries
  parse_shard files path = do
    content ← or_failed file_not_found (files.content path)
    header_size ← or_failed invalid_model (read_u64_little_endian content)
    check (not (ltb (length content) 8 || ltb (length content - 8) header_size)) invalid_model
    metadata ← or_failed invalid_model (json.parse (take header_size (drop 8 content)))
    tensors ← read_entries (length content - 8 - header_size) (json.items metadata) []
    done (record { path = path; data_section_offset = 8 + header_size; tensors = tensors })

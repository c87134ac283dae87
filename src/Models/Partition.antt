-- ===== src/Models/Partition.antt =====
-- src/models/qwen3_weights.cc: `plan_distributed`, the distribution of the layers over devices.
pub mod Bounds
pub mod Plan
use vicold_hybrid_ai.Base.{
  ℕ, zero, suc, ◌+◌, ◌-◌, ◌*◌, ◌/◌, ◌%◌, ◌<◌, ◌≤◌, ◌≡◌, refl, Bool, true, false, ◌||◌, ◌&&◌, not,
  Option, none, some, List, [], ◌∷◌, ◌++◌, map, length, ltb, leb, ◌==◌, if◌then◌else◌, is_empty,
  arith, All, add_size, sub_size, size_mod, codes, starts_with, same_text, decimal,
}
use vicold_hybrid_ai.Core.{
  Result, ok, err, invalid_argument, invalid_device, Device, is_gpu, DType, ◌>>◌, require,
}
use vicold_hybrid_ai.Models.Names.{prefix}

pub record TensorInfo : Type 0 where
  pub dtype : DType
  pub data_begin : ℕ
  pub data_end : ℕ

-- What the loader of weights asks of an open `SafeTensorLoader`.
pub record Checkpoint : Type 0 where
  pub tensor_names : List (List ℕ)
  pub tensor_info : List ℕ → Option TensorInfo

pub record DevicePartition : Type 0 where
  pub device : Device
  pub first_layer : ℕ
  pub last_layer : ℕ
  pub weight_bytes : ℕ

abbrev pub info_bytes : Option TensorInfo → ℕ
info_bytes none = 0
info_bytes (some info) = sub_size info.data_end info.data_begin

abbrev pub tensor_bytes : Checkpoint → List ℕ → ℕ
tensor_bytes loader name = info_bytes (loader.tensor_info name)

-- The bytes of the tensors whose names pass a test.
unfoldable pub bytes_where : Checkpoint → (List ℕ → Bool) → List (List ℕ) → ℕ
bytes_where loader test [] = 0
bytes_where loader test (name ∷ names) =
    let rest = bytes_where loader test names in
    if test name then add_size rest (tensor_bytes loader name) else rest

abbrev pub layer_bytes : Checkpoint → ℕ → ℕ
layer_bytes loader layer =
    bytes_where loader (starts_with (prefix ++ decimal layer ++ b'.' ∷ [])) loader.tensor_names

abbrev pub is_mtp : List ℕ → Bool
is_mtp name =
    same_text name (codes "mtp.fc.weight")
    || same_text name (codes "mtp.norm.weight")
    || same_text name (codes "mtp.pre_fc_norm_embedding.weight")
    || same_text name (codes "mtp.pre_fc_norm_hidden.weight")
    || starts_with (codes "mtp.layers.") name

abbrev pub mtp_bytes : Checkpoint → ℕ → ℕ
mtp_bytes loader mtp_layers =
    if mtp_layers == 0 then 0 else bytes_where loader is_mtp loader.tensor_names

-- The loop over `count` layers from `layer`, on top of `bytes`.
unfoldable pub add_layers : (ℕ → ℕ) → ℕ → ℕ → ℕ → ℕ
add_layers bytes_of bytes layer zero = bytes
add_layers bytes_of bytes layer (suc count) =
    add_layers bytes_of (add_size bytes (bytes_of layer)) (suc layer) count

unfoldable pub partition : (ℕ → ℕ) → ℕ → ℕ → ℕ → Device → DevicePartition
unfolding add_layers
partition bytes_of layer_count device_count i device =
    let first = layer_count * i / device_count in
    let last = layer_count * (i + 1) / device_count - 1 in
    record {
      device = device;
      first_layer = first;
      last_layer = last;
      weight_bytes = add_layers bytes_of 0 first (last + 1 - first);
    }

-- The loop over the devices from index `i`.
unfoldable pub partitions : (ℕ → ℕ) → ℕ → ℕ → ℕ → List Device → List DevicePartition
unfolding partition
partitions bytes_of layer_count device_count i [] = []
partitions bytes_of layer_count device_count i (d ∷ ds) =
    partition bytes_of layer_count device_count i d
    ∷ partitions bytes_of layer_count device_count (suc i) ds

abbrev pub more_bytes : ℕ → DevicePartition → DevicePartition
more_bytes bytes p = record p { weight_bytes = add_size p.weight_bytes bytes }

abbrev pub add_front : ℕ → List DevicePartition → List DevicePartition
add_front bytes [] = []
add_front bytes (p ∷ ps) = more_bytes bytes p ∷ ps

abbrev pub add_back : ℕ → List DevicePartition → List DevicePartition
add_back bytes [] = []
add_back bytes (p ∷ []) = more_bytes bytes p ∷ []
add_back bytes (p ∷ q ∷ ps) = p ∷ add_back bytes (q ∷ ps)

abbrev pub all_gpu : List Device → Bool
all_gpu [] = true
all_gpu (d ∷ ds) = is_gpu d && all_gpu ds

-- The embeddings go to the first device; the last norm, the head and MTP to the last one.
abbrev pub add_shared : Checkpoint → ℕ → List DevicePartition → List DevicePartition
add_shared loader mtp_layers ps = add_back (mtp_bytes loader mtp_layers) (
    add_back (tensor_bytes loader (codes "lm_head.weight")) (
      add_back (tensor_bytes loader (codes "model.language_model.norm.weight"))
        (add_front (tensor_bytes loader (codes "model.language_model.embed_tokens.weight")) ps)))

-- Of a loader that is open.
unfoldable pub plan_distributed : Checkpoint → ℕ → ℕ → List Device → Result (List DevicePartition)
unfolding partitions
plan_distributed loader layer_count mtp_layers devices = do
  require (not (is_empty devices)) invalid_argument
  require (all_gpu devices) invalid_device
  require (not (layer_count == 0 || ltb layer_count (length devices))) invalid_argument
  ok (
      add_shared loader mtp_layers
        (partitions (layer_bytes loader) layer_count (length devices) 0 devices))

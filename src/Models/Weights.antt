-- ===== src/Models/Weights.antt =====
-- src/models/qwen3_weights.cc: the loading of tensors and of layers. The loader is open; a layer index
-- that is negative is refused before anything else and has no number here.
pub mod Loaded
pub mod Layer
pub mod Mtp
pub mod Source
mod Tests
pub mod Distributed
use vicold_hybrid_ai.Base.{
  ℕ, ℤ, pos, negsuc, ◌<◌, ◌≡◌, refl, Bool, true, false, ◌||◌, ◌&&◌, not, Option, none, some, List,
  [], ◌∷◌, ◌++◌, length, get_elem?, ltb, ◌==◌, codes, if◌then◌else◌, arith,
}
use vicold_hybrid_ai.Core.{
  Result, ok, err, StatusCode, invalid_argument, invalid_model, unsupported_d_type, is_ok, Device,
  is_cpu, MemoryType, device_memory, host, DType, fp32, fp16, bf16, fp8_e4m3, ◌>>=◌, ◌>>◌, require,
}
use vicold_hybrid_ai.Models.Config.{Qwen3Config, Qwen3LayerType, linear_attention, full_attention}
use vicold_hybrid_ai.Models.Names.{layer_name, scale_name}
use vicold_hybrid_ai.Models.Partition.{Checkpoint, TensorInfo}
use vicold_hybrid_ai.Models.Quantized.{
  Tensor, no_tensor, QuantizedWeight, no_quantization, block2d, is_dense, is_fp8, validate_weight,
}

-- A tensor that a loader returns has a buffer in the memory of the device that was asked for.
pub record IsLoaded (device : Device) (memory_type : MemoryType) (t : Tensor) : Type 0 where
  pub has_buffer : t.has_buffer ≡ true
  pub same_device : t.device ≡ device
  pub same_memory_type : t.memory_type ≡ memory_type

-- What the weights need of an open SafeTensorLoader.
pub record TensorSource : Type 0 where
  pub checkpoint : Checkpoint
  pub load : List ℕ → Device → MemoryType → Result Tensor
  pub load_as_fp32 : List ℕ → Device → MemoryType → Result Tensor
  pub load-IsLoaded :
      (name : List ℕ) (device : Device) (memory_type : MemoryType) (t : Tensor)
      → load name device memory_type ≡ ok t
      → IsLoaded device memory_type t
  pub load_as_fp32-IsLoaded :
      (name : List ℕ) (device : Device) (memory_type : MemoryType) (t : Tensor)
      → load_as_fp32 name device memory_type ≡ ok t
      → IsLoaded device memory_type t

abbrev pub no_weight : QuantizedWeight
no_weight = record { values = no_tensor; scales = no_tensor; quantization = no_quantization }

pub record Qwen3LayerWeights : Type 0 where
  pub layer_index : ℤ
  pub is_attention_layer : Bool
  pub input_layernorm : Tensor
  pub post_attention_layernorm : Tensor
  pub linear_attn_norm : Tensor
  pub q_norm : Tensor
  pub k_norm : Tensor
  pub a_log : Tensor
  pub conv1d_weight : Tensor
  pub dt_bias : Tensor
  pub in_proj_a : Tensor
  pub in_proj_b : Tensor
  pub in_proj_qkv : QuantizedWeight
  pub in_proj_z : QuantizedWeight
  pub linear_out_proj : QuantizedWeight
  pub q_proj : QuantizedWeight
  pub k_proj : QuantizedWeight
  pub v_proj : QuantizedWeight
  pub o_proj : QuantizedWeight
  pub mlp_gate_proj : QuantizedWeight
  pub mlp_up_proj : QuantizedWeight
  pub mlp_down_proj : QuantizedWeight

-- `Qwen3LayerWeights{}`
abbrev pub no_layer : Qwen3LayerWeights
no_layer = record {
  layer_index = negsuc 0;
  is_attention_layer = false;
  input_layernorm = no_tensor;
  post_attention_layernorm = no_tensor;
  linear_attn_norm = no_tensor;
  q_norm = no_tensor;
  k_norm = no_tensor;
  a_log = no_tensor;
  conv1d_weight = no_tensor;
  dt_bias = no_tensor;
  in_proj_a = no_tensor;
  in_proj_b = no_tensor;
  in_proj_qkv = no_weight;
  in_proj_z = no_weight;
  linear_out_proj = no_weight;
  q_proj = no_weight;
  k_proj = no_weight;
  v_proj = no_weight;
  o_proj = no_weight;
  mlp_gate_proj = no_weight;
  mlp_up_proj = no_weight;
  mlp_down_proj = no_weight;
}

abbrev pub is_index : ℤ → Bool
is_index (pos n) = true
is_index (negsuc n) = false

abbrev pub is_valid : QuantizedWeight → Bool
is_valid w = is_ok (validate_weight w)

-- The projections that a layer of its kind needs.
abbrev pub has_projections : Qwen3LayerWeights → Bool
has_projections w =
    if w.is_attention_layer
    then is_valid w.q_proj && is_valid w.k_proj && is_valid w.v_proj && is_valid w.o_proj
    else is_valid w.in_proj_qkv && is_valid w.in_proj_z && is_valid w.linear_out_proj

unfoldable pub validate_layer : Qwen3LayerWeights → Result (Unit {0})
validate_layer w = do
  require (is_index w.layer_index) invalid_argument
  require (w.input_layernorm.has_buffer && w.post_attention_layernorm.has_buffer) invalid_model
  require (has_projections w) invalid_model
  require (is_valid w.mlp_gate_proj && is_valid w.mlp_up_proj && is_valid w.mlp_down_proj)
      invalid_model

abbrev pub memory_type_for_device : Device → MemoryType
memory_type_for_device device = if is_cpu device then host else device_memory

abbrev pub has_info : Option TensorInfo → Bool
has_info (some info) = true
has_info none = false

abbrev pub has : TensorSource → List ℕ → Bool
has loader name = has_info (loader.checkpoint.tensor_info name)

module _ (loader : TensorSource) where
  unfoldable pub load_tensor : List ℕ → Device → Result Tensor
  load_tensor name device = do
    require (has loader name) invalid_model
    loader.load name device (memory_type_for_device device)

  -- A weight whose values are dense.
  unfoldable pub load_dense : List ℕ → Device → Result QuantizedWeight
  load_dense base_name device = do
    values ← loader.load base_name device (memory_type_for_device device)
    let w : QuantizedWeight = record {
      values = values;
      scales = no_tensor;
      quantization = no_quantization;
    }
    validate_weight w
    ok w

  -- A weight in FP8, with its scales.
  unfoldable pub load_scaled : List ℕ → List ℕ → Device → Result QuantizedWeight
  load_scaled base_name scales_name device = do
    values ← loader.load base_name device (memory_type_for_device device)
    scales ← loader.load_as_fp32 scales_name device host
    let w : QuantizedWeight = record {
      values = values;
      scales = scales;
      quantization = record { scale_layout = block2d; block_rows = 128; block_columns = 128 };
    }
    validate_weight w
    ok w

  abbrev pub load_named :
      List ℕ → Device → Option (List ℕ) → Option TensorInfo → Result QuantizedWeight
  load_named base_name device none info = err invalid_argument
  load_named base_name device (some scales_name) none = err invalid_model
  load_named base_name device (some scales_name) (some info) =
      if is_dense info.dtype
      then load_dense base_name device
      else require (is_fp8 info.dtype && has loader scales_name) unsupported_d_type
        >> load_scaled base_name scales_name device

  unfoldable pub load_quantized : List ℕ → Device → Result QuantizedWeight
  unfolding load_dense load_scaled
  load_quantized base_name device =
      load_named base_name device (scale_name base_name) (loader.checkpoint.tensor_info base_name)

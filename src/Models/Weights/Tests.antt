-- ===== src/Models/Weights/Tests.antt =====
-- A concrete checkpoint for src/models/qwen3_weights.cc: one layer of full attention, one layer of
-- multi-token prediction, and tensors of two rows.
use vicold_hybrid_ai.Base.{
  ℕ, ◌≡◌, refl, true, false, Option, none, some, List, [], ◌∷◌, codes, ends_with, if◌then◌else◌,
  subst, digits,
}
use vicold_hybrid_ai.Core.{Result, ok, err, Device, MemoryType, discrete_gpu, fp32, ok-injective}
use vicold_hybrid_ai.Models.Config.{Qwen3Config, full_attention}
use vicold_hybrid_ai.Models.Names.{layer_name, scale_name}
use vicold_hybrid_ai.Models.Partition.{
  TensorInfo, plan_distributed, partitions, partition, add_layers, bytes_where,
}
use vicold_hybrid_ai.Models.Quantized.{Tensor, no_tensor, validate_weight}
use vicold_hybrid_ai.Models.Weights.{
  TensorSource, IsLoaded, Qwen3LayerWeights, no_layer, validate_layer, load_tensor, load_quantized,
  load_dense,
}
use vicold_hybrid_ai.Models.Weights.Layer.{load_layer, with_attention, with_mlp}
use vicold_hybrid_ai.Models.Weights.Layer.Complete.{IsLayer, load_layer-IsLayer}
use vicold_hybrid_ai.Models.Weights.Mtp.{
  load_mtp, load_mtp_layers, load_mtp_layer, validate_mtp, validate_layers, Qwen3MtpWeights,
}
use vicold_hybrid_ai.Models.Weights.Mtp.Complete.{IsMtp, load_mtp-IsMtp}
use vicold_hybrid_ai.Models.Weights.Distributed.{
  load_distributed, load_partitions, load_layers, load_ends, Qwen3DistributedWeights,
}
use vicold_hybrid_ai.Models.Weights.Distributed.Complete.{
  IsDistributed, load_distributed-IsDistributed,
}

abbrev gpu : Device
gpu = record {
  id = 0;
  device_type = discrete_gpu;
  backend = "hip";
  unified_memory_supported = false;
}

abbrev config : Qwen3Config
config = record {
  num_hidden_layers = 1;
  layer_types = full_attention ∷ [];
  mtp_num_hidden_layers = 1;
}

-- The checkpoint has every name but those of linear attention.
abbrev known : List ℕ → Option TensorInfo
known name =
    if ends_with (codes "linear_attn.in_proj_qkv.weight") name
    then none
    else some (record { dtype = fp32; data_begin = 0; data_end = 8 })

abbrev tensor : List ℕ → Device → MemoryType → Tensor
tensor name device memory_type = record {
  has_buffer = true;
  dtype = fp32;
  shape = if ends_with (codes "fc.weight") name then 2 ∷ 4 ∷ [] else 2 ∷ [];
  device = device;
  memory_type = memory_type;
}

tensor-IsLoaded :
    (name : List ℕ) (device : Device) (memory_type : MemoryType) (t : Tensor)
    → ◌≡◌ {A = Result Tensor} (ok (tensor name device memory_type)) (ok t)
    → IsLoaded device memory_type t
tensor-IsLoaded name device memory_type t h =
    subst (IsLoaded device memory_type) (ok-injective h)
      (record { has_buffer = refl; same_device = refl; same_memory_type = refl })

abbrev source : TensorSource
source = record {
  checkpoint = record { tensor_names = []; tensor_info = known };
  load = λ name device memory_type. ok (tensor name device memory_type);
  load_as_fp32 = λ name device memory_type. ok (tensor name device memory_type);
  load-IsLoaded = λ name device memory_type. tensor-IsLoaded name device memory_type;
  load_as_fp32-IsLoaded = λ name device memory_type. tensor-IsLoaded name device memory_type;
}

-- What a call gives, or else a value of no use.
abbrev result_or : {A : Type 0} → A → Result A → A
result_or a (ok b) = b
result_or a (err code) = a

abbrev layer : Qwen3LayerWeights
layer = result_or no_layer (load_layer source 0 gpu config)

load_layer-IsLayer_example : IsLayer source config 0 gpu layer
unfolding load_layer with_attention with_mlp load_tensor load_quantized load_dense validate_layer
    validate_weight scale_name layer_name digits
load_layer-IsLayer_example = load_layer-IsLayer source config 0 gpu layer refl

abbrev no_mtp : Qwen3MtpWeights
no_mtp = record {
  fc = no_tensor;
  norm = no_tensor;
  pre_fc_norm_embedding = no_tensor;
  pre_fc_norm_hidden = no_tensor;
  layers = [];
}

abbrev mtp : Qwen3MtpWeights
mtp = result_or no_mtp (load_mtp source gpu config)

load_mtp-IsMtp_example : IsMtp source gpu 1 mtp
unfolding load_mtp load_mtp_layers load_mtp_layer validate_mtp validate_layers load_tensor
    load_quantized load_dense validate_layer validate_weight scale_name digits
load_mtp-IsMtp_example = load_mtp-IsMtp source gpu config mtp refl

abbrev no_weights : Qwen3DistributedWeights
no_weights = record {
  shared = record { embed_tokens = no_tensor; final_norm = no_tensor; lm_head = no_tensor };
  layers = [];
  layer_devices = [];
  partitions = [];
  total_weight_bytes = 0;
}

abbrev distributed : Qwen3DistributedWeights
distributed = result_or no_weights (load_distributed source config (gpu ∷ []))

load_distributed-IsDistributed_example : IsDistributed source config (gpu ∷ []) distributed
unfolding load_distributed load_partitions load_layers load_ends plan_distributed partitions
    partition add_layers bytes_where load_layer with_attention with_mlp load_tensor load_quantized
    load_dense validate_layer validate_weight scale_name layer_name digits
load_distributed-IsDistributed_example =
    load_distributed-IsDistributed source config (gpu ∷ []) distributed refl

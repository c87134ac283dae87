-- ===== src/Models/Tests.antt =====
-- Concrete names, plans and placements of src/models.
use vicold_hybrid_ai.Base.{
  pos, ℕ, ◌≡◌, refl, false, true, some, List, [], ◌∷◌, ◌++◌, arith, codes, digits,
}
use vicold_hybrid_ai.Core.{
  cpu_device, host, ok, Device, discrete_gpu, integrated_gpu, fp32, fp8_e4m3,
}
use vicold_hybrid_ai.Models.Names.{
  weight_suffix, resolve, layer_name, scale_name, resolve-layer_name, resolve-scale_name,
}
use vicold_hybrid_ai.Models.Sharding.{
  WeightShardingConfig, WeightPlacement, layer, plan, validate, IsPlacement, plan-IsPlacement,
}
use vicold_hybrid_ai.Models.Partition.{Checkpoint, DevicePartition, plan_distributed}
use vicold_hybrid_ai.Models.Partition.Plan.{IsPlan, plan_distributed-IsPlan}
use vicold_hybrid_ai.Models.Quantized.{
  QuantizedWeight, block2d, validate_weight, HasScale, validate_weight-HasScale,
}

resolve-layer_name_example :
    resolve (layer_name 17 (codes "mlp.up_proj.weight"))
    ≡ ok (record {
      canonical_name = layer_name 17 (codes "mlp.up_proj.weight");
      layer_index = pos 17;
      is_scale = false;
    })
unfolding layer_name digits
resolve-layer_name_example = resolve-layer_name 17 (codes "mlp.up_proj.weight") (omega arith)

resolve-scale_name_example :
    (name : List ℕ) × (scale_name (layer_name 3 (codes "mlp.up_proj" ++ weight_suffix)) ≡ some name)
    × (resolve name ≡ ok (record { canonical_name = name; layer_index = pos 3; is_scale = true }))
resolve-scale_name_example = resolve-scale_name 3 (codes "mlp.up_proj") (omega arith)

abbrev first_device : Device
first_device = record {
  id = 0;
  device_type = discrete_gpu;
  backend = "hip";
  unified_memory_supported = false;
}

abbrev second_device : Device
second_device = record {
  id = 1;
  device_type = integrated_gpu;
  backend = "hip";
  unified_memory_supported = true;
}

abbrev by_layers : WeightShardingConfig
by_layers = record { mode = layer; devices = first_device ∷ second_device ∷ [] }

plan-IsPlacement_example :
    (ps : List WeightPlacement) × (plan by_layers (codes "w") (pos 5) ≡ ok ps)
    × IsPlacement layer (first_device ∷ second_device ∷ []) (pos 5) ps
unfolding validate
plan-IsPlacement_example = plan-IsPlacement by_layers (codes "w") (pos 5) refl refl refl

-- Two layers of 8 bytes, and nothing else.
abbrev small_checkpoint : Checkpoint
small_checkpoint = record {
  tensor_names = layer_name 0 (codes "w") ∷ layer_name 1 (codes "w") ∷ [];
  tensor_info = λ _. some (record { dtype = fp32; data_begin = 8; data_end = 16 });
}

plan_distributed-IsPlan_example :
    (ps : List DevicePartition) × (plan_distributed small_checkpoint 5 0
        (first_device ∷ second_device ∷ [])
      ≡ ok ps)
    × IsPlan small_checkpoint 5 0 (first_device ∷ second_device ∷ []) ps
plan_distributed-IsPlan_example =
    plan_distributed-IsPlan small_checkpoint 5 0 first_device (second_device ∷ []) refl
      (omega arith)

-- 300 rows and 128 columns in blocks of 128 by 128.
abbrev blocked_weight : QuantizedWeight
blocked_weight = record {
  values = record {
    has_buffer = true;
    dtype = fp8_e4m3;
    shape = 300 ∷ 128 ∷ [];
    device = cpu_device;
    memory_type = host;
  };
  scales = record {
    has_buffer = true;
    dtype = fp32;
    shape = 3 ∷ 1 ∷ [];
    device = cpu_device;
    memory_type = host;
  };
  quantization = record { scale_layout = block2d; block_rows = 128; block_columns = 128 };
}

validate_weight-HasScale_example : HasScale blocked_weight 299 127
unfolding validate_weight
validate_weight-HasScale_example =
    validate_weight-HasScale blocked_weight 299 127 refl refl (omega arith) (omega arith)

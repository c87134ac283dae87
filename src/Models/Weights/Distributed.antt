-- ===== src/Models/Weights/Distributed.antt =====
-- src/models/qwen3_weights.cc: load_shared and load_distributed, of a loader that is open.
pub mod Resident
pub mod Complete
use vicold_hybrid_ai.Base.{
  ℕ, zero, suc, ◌+◌, ◌-◌, ◌≡◌, refl, Bool, true, false, not, Option, none, some, List, [], ◌∷◌,
  length, set, replicate, is_empty, codes, add_size,
}
use vicold_hybrid_ai.Core.{
  Result, ok, err, invalid_argument, Device, no_device, ◌>>=◌, ◌>>◌, require,
}
use vicold_hybrid_ai.Models.Config.{Qwen3Config}
use vicold_hybrid_ai.Models.Partition.{DevicePartition, plan_distributed}
use vicold_hybrid_ai.Models.Quantized.{Tensor, no_tensor}
use vicold_hybrid_ai.Models.Weights.{TensorSource, Qwen3LayerWeights, no_layer, load_tensor}
use vicold_hybrid_ai.Models.Weights.Layer.{load_layer}

pub record Qwen3SharedWeights : Type 0 where
  pub embed_tokens : Tensor
  pub final_norm : Tensor
  pub lm_head : Tensor

-- The member `mtp` is left as it is constructed, and stands for nothing here.
pub record Qwen3DistributedWeights : Type 0 where
  pub shared : Qwen3SharedWeights
  pub layers : List Qwen3LayerWeights
  pub layer_devices : List Device
  pub partitions : List DevicePartition
  pub total_weight_bytes : ℕ

-- The layers and their devices, as the loops fill them.
abbrev pub Filled : Type 0
Filled = List Qwen3LayerWeights × List Device

abbrev pub put_layer : ℕ → Device → Qwen3LayerWeights → Filled → Filled
put_layer layer_index device w (layers, devices) =
    (set layers layer_index w, set devices layer_index device)

abbrev pub last_of : Device → List Device → Device
last_of d [] = d
last_of d (e ∷ ds) = last_of e ds

abbrev pub first_of : List Device → Device
first_of [] = no_device
first_of (d ∷ ds) = d

abbrev pub back_of : List Device → Device
back_of [] = no_device
back_of (d ∷ ds) = last_of d ds

module _ (loader : TensorSource) where
  -- The three tensors, on the devices of the first and of the last layers.
  unfoldable pub load_ends : Device → Device → Result Qwen3SharedWeights
  load_ends front back = do
    embed_tokens ← load_tensor loader (codes "model.language_model.embed_tokens.weight") front
    final_norm ← load_tensor loader (codes "model.language_model.norm.weight") back
    lm_head ← load_tensor loader (codes "lm_head.weight") back
    ok (record { embed_tokens = embed_tokens; final_norm = final_norm; lm_head = lm_head })

  unfoldable pub load_shared : Device → Result Qwen3SharedWeights
  unfolding load_ends
  load_shared device = load_ends device device

  -- The loop over `count` layers from `layer_index`.
  unfoldable pub load_layers : Qwen3Config → Device → ℕ → ℕ → Filled → Result Filled
  load_layers config device layer_index zero filled = ok filled
  load_layers config device layer_index (suc count) filled = do
    w ← load_layer loader layer_index device config
    load_layers config device (suc layer_index) count (put_layer layer_index device w filled)

  -- The loop over the partitions, with the sum of their bytes.
  unfoldable pub load_partitions :
      Qwen3Config → List DevicePartition → Filled → ℕ → Result (Filled × ℕ)
  unfolding load_layers
  load_partitions config [] filled total = ok (filled, total)
  load_partitions config (p ∷ ps) filled total = do
    filled' ← load_layers config p.device p.first_layer (p.last_layer + 1 - p.first_layer) filled
    load_partitions config ps filled' (add_size total p.weight_bytes)

  unfoldable pub load_distributed : Qwen3Config → List Device → Result Qwen3DistributedWeights
  unfolding load_partitions load_ends
  load_distributed config devices = do
    require (not (is_empty devices)) invalid_argument
    partitions ←
        plan_distributed loader.checkpoint config.num_hidden_layers config.mtp_num_hidden_layers
          devices
    result ←
        load_partitions config partitions
          (
            replicate config.num_hidden_layers no_layer,
            replicate config.num_hidden_layers no_device,
          )
          0
    shared ← load_ends (first_of devices) (back_of devices)
    ok (record {
      shared = shared;
      layers = result.0.0;
      layer_devices = result.0.1;
      partitions = partitions;
      total_weight_bytes = result.1;
    })

-- ===== src/Models/Weights/Distributed/Complete.antt =====
-- src/models/qwen3_weights.cc: what load_distributed gives as a whole.
use vicold_hybrid_ai.Base.{
  ◌%◌, ◌≡◌, true, not, List, length, replicate, is_empty, codes, size_mod, arith, length-replicate,
}
use vicold_hybrid_ai.Core.{
  ok, invalid_argument, Device, no_device, Ensures, Ensures-bind, Ensures-require, Ensures-then,
  Ensures-path,
}
use vicold_hybrid_ai.Models.Config.{Qwen3Config}
use vicold_hybrid_ai.Models.Partition.{plan_distributed, all_gpu}
use vicold_hybrid_ai.Models.Partition.Plan.{IsPlan, plan_distributed-ok, model_bytes}
use vicold_hybrid_ai.Models.Weights.{TensorSource, no_layer, load_tensor}
use vicold_hybrid_ai.Models.Weights.Loaded.{IsTensor, load_tensor-IsTensor}
use vicold_hybrid_ai.Models.Weights.Distributed.{
  load_partitions, load_ends, load_distributed, Qwen3DistributedWeights, Qwen3SharedWeights,
  first_of, back_of,
}
use vicold_hybrid_ai.Models.Weights.Distributed.Resident.{AreResident, Fills, load_partitions-Fills}

abbrev pub HasEnds : TensorSource → Device → Device → Qwen3SharedWeights → Type 0
HasEnds loader front back shared =
    IsTensor loader front (codes "model.language_model.embed_tokens.weight") shared.embed_tokens
    × IsTensor loader back (codes "model.language_model.norm.weight") shared.final_norm
    × IsTensor loader back (codes "lm_head.weight") shared.lm_head

load_ends-HasEnds :
    (loader : TensorSource) (front back : Device)
    → Ensures (HasEnds loader front back) (load_ends loader front back)
unfolding load_ends
load_ends-HasEnds loader front back =
    let P = HasEnds loader front back in
    let embed = codes "model.language_model.embed_tokens.weight" in
    let norm = codes "model.language_model.norm.weight" in
    let head = codes "lm_head.weight" in
    Ensures-then (IsTensor loader front embed) P (load_tensor loader embed front) _
      (load_tensor-IsTensor loader front embed)
      λ embed_tokens e.
        Ensures-then (IsTensor loader back norm) P (load_tensor loader norm back) _
          (load_tensor-IsTensor loader back norm)
          λ final_norm n.
            Ensures-then (IsTensor loader back head) P (load_tensor loader head back) _
              (load_tensor-IsTensor loader back head) λ lm_head h. (e, n, h)

-- The weights of a model, distributed over devices.
pub record IsDistributed (loader : TensorSource) (config : Qwen3Config) (devices : List Device)
    (w : Qwen3DistributedWeights) : Type 0 where
  pub gpus : all_gpu devices ≡ true
  pub planned :
      IsPlan loader.checkpoint config.num_hidden_layers config.mtp_num_hidden_layers devices
        w.partitions
  pub resident : AreResident loader config w.layers w.layer_devices w.partitions
  pub counted :
      (length w.layers ≡ config.num_hidden_layers)
      × (length w.layer_devices ≡ config.num_hidden_layers)
  pub ends : HasEnds loader (first_of devices) (back_of devices) w.shared
  pub sum :
      w.total_weight_bytes % size_mod
      ≡ model_bytes loader.checkpoint config.num_hidden_layers config.mtp_num_hidden_layers
        % size_mod

-- If load_distributed succeeds, its partitions are a plan for the devices, all of them GPUs, so that
-- they hold every layer once; each layer of a partition is loaded whole, each tensor from its name into
-- the memory of the device of the partition, and entered with that device; the embeddings are in the
-- memory of the first device, the last norm and the head in that of the last one, each from its name;
-- and the reported bytes are those of the model, MTP included, modulo 2 ^ 64. Scales stay in host memory.
pub load_distributed-IsDistributed :
    (loader : TensorSource) (config : Qwen3Config) (devices : List Device)
    (w : Qwen3DistributedWeights)
    → load_distributed loader config devices ≡ ok w
    → IsDistributed loader config devices w
unfolding load_distributed
load_distributed-IsDistributed loader config devices w h =
    let P = IsDistributed loader config devices in
    let n = config.num_hidden_layers in
    let mtp = config.mtp_num_hidden_layers in
    Ensures-path P (load_distributed loader config devices) w
      (Ensures-require P (not (is_empty devices)) invalid_argument _ λ _.
        Ensures-bind P (plan_distributed loader.checkpoint n mtp devices) _ λ partitions plan.
          let (gpus, planned) =
            plan_distributed-ok loader.checkpoint n mtp devices partitions plan in
          let (_, covers, bytes) = planned in
          Ensures-then
            (Fills loader config partitions 0 (replicate n no_layer, replicate n no_device) 0) P
            (load_partitions loader config partitions (replicate n no_layer, replicate n no_device)
              0)
            _
            (load_partitions-Fills loader config _ 0 partitions
              (replicate n no_layer, replicate n no_device) 0 covers
              (length-replicate n no_layer, length-replicate n no_device))
            λ result fills.
              Ensures-then (HasEnds loader (first_of devices) (back_of devices)) P
                (load_ends loader (first_of devices) (back_of devices)) _
                (load_ends-HasEnds loader (first_of devices) (back_of devices))
                λ shared ends. record {
                  gpus = gpus;
                  planned = planned;
                  resident = fills.loaded;
                  counted = fills.sized;
                  ends = ends;
                  sum = omega (arith, fills.sum, bytes);
                })
      h

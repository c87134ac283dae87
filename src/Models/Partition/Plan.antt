-- ===== src/Models/Partition/Plan.antt =====
-- src/models/qwen3_weights.cc: the result of `plan_distributed` as a whole.
use native.Mathlib.Nat.{zero-div}
use vicold_hybrid_ai.Base.{
  ℕ, ◌-◌, ◌+◌, ◌*◌, ◌/◌, ◌%◌, ◌<◌, ◌≤◌, ◌≡◌, refl, ap, sym, not, ◌∙◌, subst, true, false, List, [],
  ◌∷◌, map, length, arith, size_mod, ◌||◌, ◌==◌, ltb, codes,
}
use vicold_hybrid_ai.Core.{ok, Device, require-elim, invalid_device, invalid_argument, ok-injective}
use vicold_hybrid_ai.Models.Partition.{
  Checkpoint, DevicePartition, partitions, add_front, add_back, add_shared, all_gpu,
  plan_distributed, tensor_bytes, mtp_bytes, layer_bytes,
}
use vicold_hybrid_ai.Models.Partition.Bounds.{
  Covers, layers_total, weights_total, partitions-Covers, partitions-total, Covers-add_front,
  Covers-add_back, add_back-total, partitions-devices,
}

-- The bytes of all the tensors that a plan puts on devices.
abbrev pub model_bytes : Checkpoint → ℕ → ℕ → ℕ
model_bytes loader layer_count mtp_layers =
    layers_total (layer_bytes loader) 0 layer_count
    + tensor_bytes loader (codes "model.language_model.embed_tokens.weight")
    + tensor_bytes loader (codes "model.language_model.norm.weight")
    + tensor_bytes loader (codes "lm_head.weight")
    + mtp_bytes loader mtp_layers

-- A plan: a partition for each device, in order, which together hold each layer once, in shares that
-- differ by one layer at most; the bytes add up to those of the model.
abbrev pub IsPlan : Checkpoint → ℕ → ℕ → List Device → List DevicePartition → Type 0
IsPlan loader layer_count mtp_layers devices ps =
    (map (λ p. p.device) ps ≡ devices)
    × Covers (layer_count / length devices) 0 layer_count ps
    × (weights_total ps % size_mod ≡ model_bytes loader layer_count mtp_layers % size_mod)

add_front-total :
    (bytes : ℕ) (ps : List DevicePartition)
    → 0 < length ps
    → (weights_total (add_front bytes ps) % size_mod ≡ (weights_total ps + bytes) % size_mod)
      × (map (λ p. p.device) (add_front bytes ps) ≡ map (λ p. p.device) ps)
      × (0 < length (add_front bytes ps))
add_front-total bytes [] some_part = absurd (omega arith)
add_front-total bytes (p ∷ ps) some_part = (omega arith, refl, omega arith)

add_shared-IsPlan :
    (loader : Checkpoint) (layer_count mtp_layers : ℕ) (devices : List Device)
    (ps : List DevicePartition)
    → 0 < length ps
    → map (λ p. p.device) ps ≡ devices
    → Covers (layer_count / length devices) 0 layer_count ps
    → weights_total ps % size_mod ≡ layers_total (layer_bytes loader) 0 layer_count % size_mod
    → IsPlan loader layer_count mtp_layers devices (add_shared loader mtp_layers ps)
add_shared-IsPlan loader layer_count mtp_layers devices ps nonempty same covers sum =
    let share = layer_count / length devices in
    let embed = tensor_bytes loader (codes "model.language_model.embed_tokens.weight") in
    let norm = tensor_bytes loader (codes "model.language_model.norm.weight") in
    let head = tensor_bytes loader (codes "lm_head.weight") in
    let (s1, d1, n1) = add_front-total embed ps nonempty in
    let ps1 = add_front embed ps in
    let (s2, d2, n2) = add_back-total norm ps1 n1 in
    let ps2 = add_back norm ps1 in
    let (s3, d3, n3) = add_back-total head ps2 n2 in
    let ps3 = add_back head ps2 in
    let (s4, d4, n4) = add_back-total (mtp_bytes loader mtp_layers) ps3 n3 in
    (
      d4 ∙ d3 ∙ d2 ∙ d1 ∙ same,
      Covers-add_back share 0 layer_count (mtp_bytes loader mtp_layers) ps3 (
          Covers-add_back share 0 layer_count head ps2 (
            Covers-add_back share 0 layer_count norm ps1
              (Covers-add_front share 0 layer_count embed ps covers))),
      omega (arith, s1, s2, s3, s4, sum),
    )

-- For GPUs, at least one and no more than there are layers, the plan succeeds, and its partitions hold
-- every layer once, in the order of the devices, in shares that differ by one layer at most; their
-- bytes add up to those of the model, modulo 2 ^ 64.
pub plan_distributed-IsPlan :
    (loader : Checkpoint) (layer_count mtp_layers : ℕ) (d : Device) (ds : List Device)
    → all_gpu (d ∷ ds) ≡ true
    → length (d ∷ ds) ≤ layer_count
    → (ps : List DevicePartition) × (plan_distributed loader layer_count mtp_layers (d ∷ ds)
        ≡ ok ps)
      × IsPlan loader layer_count mtp_layers (d ∷ ds) ps
unfolding plan_distributed partitions
plan_distributed-IsPlan loader layer_count mtp_layers d ds gpus few =
    let n = length (d ∷ ds) in
    let ps = partitions (layer_bytes loader) layer_count n 0 (d ∷ ds) in
    let enough : (layer_count == 0 || ltb layer_count n) ≡ false = ground arith in
    let from_zero : layer_count * 0 / n ≡ 0 = ap (λ m. m / n) (omega arith) ∙ zero-div n in
    let whole : layer_count - 0 ≡ layer_count = omega arith in
    (
      add_shared loader mtp_layers ps,
      rw (plan_distributed, gpus, enough) refl,
      add_shared-IsPlan loader layer_count mtp_layers (d ∷ ds) ps (omega arith)
          (partitions-devices (layer_bytes loader) layer_count n 0 (d ∷ ds))
          (subst (λ first. Covers (layer_count / n) first layer_count ps) from_zero
            (partitions-Covers layer_count n (omega arith) few (layer_bytes loader) 0 (d ∷ ds)
              (omega arith)))
          (subst
            (λ count.
              weights_total ps % size_mod ≡ layers_total (layer_bytes loader) 0 count % size_mod)
            whole
            (subst
              (λ first.
                weights_total ps % size_mod
                ≡ layers_total (layer_bytes loader) first (layer_count - first) % size_mod)
              from_zero
              (partitions-total layer_count n (omega arith) few (layer_bytes loader) 0 (d ∷ ds)
                (omega arith)))),
    )

-- A plan that is returned is a plan, and its devices are GPUs.
pub plan_distributed-ok :
    (loader : Checkpoint) (layer_count mtp_layers : ℕ) (devices : List Device)
    (ps : List DevicePartition)
    → plan_distributed loader layer_count mtp_layers devices ≡ ok ps
    → (all_gpu devices ≡ true) × IsPlan loader layer_count mtp_layers devices ps
unfolding plan_distributed
plan_distributed-ok loader layer_count mtp_layers [] ps h = absurd (cc)
plan_distributed-ok loader layer_count mtp_layers (d ∷ ds) ps h =
    require-elim (all_gpu (d ∷ ds)) invalid_device _ h λ gpus h'.
      require-elim (not (layer_count == 0 || ltb layer_count (length (d ∷ ds)))) invalid_argument _
        h'
        λ few _.
          let (qs, e, plan) =
            plan_distributed-IsPlan loader layer_count mtp_layers d ds gpus (ground arith) in
          (
            gpus,
            subst (IsPlan loader layer_count mtp_layers (d ∷ ds)) (ok-injective (sym e ∙ h)) plan,
          )

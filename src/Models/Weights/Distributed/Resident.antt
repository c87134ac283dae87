-- ===== src/Models/Weights/Distributed/Resident.antt =====
-- src/models/qwen3_weights.cc: where load_distributed puts the layers.
use vicold_hybrid_ai.Base.{
  ℕ, zero, suc, ◌+◌, ◌-◌, ◌%◌, ◌<◌, ◌≤◌, ◌≡◌, ◌≢◌, refl, ap, subst, ◌∙◌, some, List, [], ◌∷◌,
  length, get_elem?, add_size, size_mod, arith, All, length-set, get_elem?-set_self,
  get_elem?-set_ne, inl, inr, ltb, Bool-cases,
}
use vicold_hybrid_ai.Core.{Device, Ensures, Ensures-bind, Ensures-then, Ensures-imp}
use vicold_hybrid_ai.Models.Config.{Qwen3Config}
use vicold_hybrid_ai.Models.Partition.{DevicePartition}
use vicold_hybrid_ai.Models.Partition.Bounds.{Covers, weights_total}
use vicold_hybrid_ai.Models.Weights.{TensorSource, Qwen3LayerWeights}
use vicold_hybrid_ai.Models.Weights.Layer.{load_layer}
use vicold_hybrid_ai.Models.Weights.Layer.Complete.{IsLayer, load_layer-IsLayer}
use vicold_hybrid_ai.Models.Weights.Distributed.{put_layer, load_layers, load_partitions}

abbrev pub Same :
    ℕ → List Qwen3LayerWeights × List Device → List Qwen3LayerWeights × List Device → Type 0
Same j f g = (get_elem? g.0 j ≡ get_elem? f.0 j) × (get_elem? g.1 j ≡ get_elem? f.1 j)

abbrev pub HasSize : ℕ → List Qwen3LayerWeights × List Device → Type 0
HasSize n f = (length f.0 ≡ n) × (length f.1 ≡ n)

module _ (loader : TensorSource) (config : Qwen3Config) where
  -- A layer that is loaded on a device, and entered as being there.
  abbrev pub IsResident : Device → List Qwen3LayerWeights → List Device → ℕ → Type 0
  IsResident device layers devices j =
      (w : Qwen3LayerWeights) × (get_elem? layers j ≡ some w)
      × (get_elem? devices j ≡ some device)
      × IsLayer loader config j device w

  -- From the layer `first` on, below `end`, the layers are loaded; those in front are as they were.
  record Loads (device : Device) (first end : ℕ) (f g : List Qwen3LayerWeights × List Device)
      : Type 0 where
    sized : HasSize config.num_hidden_layers g
    kept : (j : ℕ) → j < first → Same j f g
    loaded : (j : ℕ) → first ≤ j → j < end → IsResident device g.0 g.1 j

  put_layer-HasSize :
      (device : Device) (i : ℕ) (w : Qwen3LayerWeights) (f : List Qwen3LayerWeights × List Device)
      → HasSize config.num_hidden_layers f
      → HasSize config.num_hidden_layers (put_layer i device w f)
  put_layer-HasSize device i w (layers, devices) (a, b) =
      (length-set layers i w ∙ a, length-set devices i device ∙ b)

  put_layer-Same :
      (device : Device) (i j : ℕ) (w : Qwen3LayerWeights) (f : List Qwen3LayerWeights × List Device)
      → j ≢ i
      → Same j f (put_layer i device w f)
  put_layer-Same device i j w (layers, devices) ne =
      (get_elem?-set_ne layers i j w ne, get_elem?-set_ne devices i j device ne)

  put_layer-IsResident :
      (device : Device) (i : ℕ) (w : Qwen3LayerWeights) (f g : List Qwen3LayerWeights × List Device)
      → HasSize config.num_hidden_layers f
      → IsLayer loader config i device w
      → Same i (put_layer i device w f) g
      → IsResident device g.0 g.1 i
  put_layer-IsResident device i w (layers, devices) g (a, b) l (p, q) = (
    w,
    p ∙ get_elem?-set_self layers i w (omega (arith, l.in_range)),
    q ∙ get_elem?-set_self devices i device (omega (arith, l.in_range)),
    l,
  )

  load_layers-Loads :
      (device : Device) (i count : ℕ) (f : List Qwen3LayerWeights × List Device)
      → HasSize config.num_hidden_layers f
      → Ensures (Loads device i (i + count) f) (load_layers loader config device i count f)
  unfolding load_layers
  load_layers-Loads device i zero f size = record {
    sized = size;
    kept = λ j lt. (refl, refl);
    loaded = λ j le lt. absurd (omega arith);
  }
  load_layers-Loads device i (suc count) f size =
      let P = Loads device i (i + suc count) f in
      Ensures-bind P (load_layer loader i device config) _ λ w read.
        let l = load_layer-IsLayer loader config i device w read in
        let f' = put_layer i device w f in
        Ensures-imp (Loads device (suc i) (suc i + count) f') P
          (load_layers loader config device (suc i) count f')
          (load_layers-Loads device (suc i) count f' (put_layer-HasSize device i w f size))
          λ g rest. record {
            sized = rest.sized;
            kept = λ j lt.
                let (a, b) = rest.kept j (omega arith) in
                let (c, d) = put_layer-Same device i j w f (λ e. omega (arith, e)) in
                (a ∙ c, b ∙ d);
            loaded = λ j le lt. elim (Bool-cases (ltb i j)) [
              | inl later ↦ rest.loaded j (ground arith) (omega arith)
              | inr first ↦
                  let same : i ≡ j = ground arith in
                  subst (IsResident device g.0 g.1) same
                    (put_layer-IsResident device i w f g size l (rest.kept i (omega arith)))
            ];
          }

  -- Partitions whose layers are all loaded on their devices.
  abbrev pub AreResident : List Qwen3LayerWeights → List Device → List DevicePartition → Type 0
  AreResident layers devices = All λ (p : DevicePartition).
      (j : ℕ) → p.first_layer ≤ j → j ≤ p.last_layer → IsResident p.device layers devices j

  pub record Fills (ps : List DevicePartition) (first : ℕ)
      (f : List Qwen3LayerWeights × List Device) (total : ℕ)
      (r : (List Qwen3LayerWeights × List Device) × ℕ) : Type 0 where
    pub sized : HasSize config.num_hidden_layers r.0
    pub kept : (j : ℕ) → j < first → Same j f r.0
    pub loaded : AreResident r.0.0 r.0.1 ps
    pub sum : r.1 % size_mod ≡ (total + weights_total ps) % size_mod

  pub load_partitions-Fills :
      (share first : ℕ) (ps : List DevicePartition) (f : List Qwen3LayerWeights × List Device)
      (total : ℕ)
      → Covers share first config.num_hidden_layers ps
      → HasSize config.num_hidden_layers f
      → Ensures (Fills ps first f total) (load_partitions loader config ps f total)
  unfolding load_partitions
  load_partitions-Fills share first [] f total covers size = record {
    sized = size;
    kept = λ j lt. (refl, refl);
    loaded = tt;
    sum = ap (λ n. n % size_mod) (omega arith);
  }
  load_partitions-Fills share first (p ∷ ps) f total (starts, lo, hi, covers) size =
      let P = Fills (p ∷ ps) first f total in
      let count = p.last_layer + 1 - p.first_layer in
      Ensures-then (Loads p.device p.first_layer (p.first_layer + count) f) P
        (load_layers loader config p.device p.first_layer count f) _
        (load_layers-Loads p.device p.first_layer count f size)
        λ g here.
          let total' = add_size total p.weight_bytes in
          Ensures-imp (Fills ps (p.last_layer + 1) g total') P
            (load_partitions loader config ps g total')
            (load_partitions-Fills share (p.last_layer + 1) ps g total' covers here.sized)
            λ r rest. record {
              sized = rest.sized;
              kept = λ j lt.
                  let (a, b) = rest.kept j (omega arith) in
                  let (c, d) = here.kept j (omega arith) in (a ∙ c, b ∙ d);
              loaded = (
                λ j le lt.
                    let (w, a, b, l) = here.loaded j le (omega arith) in
                    let (c, d) = rest.kept j (omega arith) in (w, c ∙ a, d ∙ b, l),
                rest.loaded,
              );
              sum = omega (arith, rest.sum);
            }
